-- ===== src/Logging.antt =====
-- util/logger.h and uvcppclient/logger.h: the class `tlogger` and the logging macros, two versions of
-- each. log4cplus is outside: `World` is its state and the program's, and its macros are a parameter.
pub mod Versions
mod Tests
use libuvwrapper.Base.{ℕ, ◌≡◌, Bool, true, false, List, [], ◌∷◌, ◌++◌, ◌==◌, if◌then◌else◌}

pub data Level : Type 0 where
  trace debug info warn error fatal : Level

-- What the constructor of `tlogger` calls: of log4cplus, and mkdir with its mode.
pub data SetUp : Type 0 where
  initialize get_root get_instance do_configure : SetUp
  make_log_dir : ℕ → SetUp

-- tlogger(): `missing` is whether access says that there is no "log". What mkdir returns is ignored.
unfoldable pub tlogger : Bool → List SetUp
tlogger missing =
    initialize
    ∷ get_root
    ∷ get_instance
    ∷ ((if missing then make_log_dir 755 ∷ [] else []) ++ (do_configure ∷ []))

-- The text of an operand, and what evaluating it changes.
abbrev pub Operand : Type 0 → Type 0
Operand World = World → List ℕ × World

-- LOG4CPLUS_TRACE and the others, for the one logger; whether a level is logged; and what logging a
-- text does.
pub record Log4cplus (World : Type 0) : Type 0 where
  pub macro : Level → Operand World → World → World
  pub enabled : Level → World → Bool
  pub append : Level → List ℕ → World → World

-- An operand is evaluated, and its text logged, exactly if the level is on.
pub record IsLog4cplus {World : Type 0} (lib : Log4cplus World) : Type 0 where
  pub logs :
      (l : Level) (x : Operand World) (w : World)
      → lib.enabled l w ≡ true
      → lib.macro l x w ≡ lib.append l (x w).0 (x w).1
  pub skips :
      (l : Level) (x : Operand World) (w : World) → lib.enabled l w ≡ false → lib.macro l x w ≡ w

-- What `const char *` shows of a text: the bytes before the first zero.
unfoldable pub c_str : List ℕ → List ℕ
c_str [] = []
c_str (x ∷ xs) = if x == 0 then [] else x ∷ c_str xs

-- `sstr << x << y`, from the left: the texts, one after the other.
unfoldable pub inserted : {World : Type 0} → List (Operand World) → World → List ℕ × World
inserted [] w = ([], w)
inserted (x ∷ xs) w = let (text, v) = x w in let (rest, u) = inserted xs v in (text ++ rest, u)

module _ {World : Type 0} (lib : Log4cplus World) where
  -- LOG_TRACE to LOG_FATAL of util/logger.h: X is in parentheses, so it is one operand.
  unfoldable pub log : Level → Operand World → World → World
  log l x w = lib.macro l x w

  -- Those of uvcppclient/logger.h. X stands behind `sstr <<` without parentheses, so a `<<` of its own
  -- that is in none separates two operands: `operands` has them all, and the stream has their texts
  -- and the zero of std::ends.
  unfoldable pub log_stream : Level → List (Operand World) → World → World
  unfolding c_str inserted
  log_stream l operands w =
      let (text, v) = inserted operands w in lib.macro l (λ v. (c_str (text ++ (0 ∷ [])), v)) v
