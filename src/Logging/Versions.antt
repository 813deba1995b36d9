-- ===== src/Logging/Versions.antt =====
-- The two versions of the logging macros, side by side.
use libuvwrapper.Base.{
  ℕ, ◌≡◌, refl, sym, ap, ◌∙◌, inl, inr, Bool, true, false, List, [], ◌∷◌, ◌++◌, arith, count,
  Bool-cases,
}
use libuvwrapper.Logging.{Level, Operand, Log4cplus, IsLog4cplus, c_str, inserted, log, log_stream}
use mathlib.Core.Logic.{◌↔◌}
use mathlib.Core.List.{append-nil}

c_str-ends : (xs : List ℕ) → c_str (xs ++ (0 ∷ [])) ≡ c_str xs
unfolding c_str
c_str-ends [] = refl
c_str-ends (x ∷ xs) = rw (c_str-ends xs) refl

c_str_whole : (xs : List ℕ) → count 0 xs ≡ 0 → c_str xs ≡ xs
unfolding c_str
c_str_whole [] h = refl
c_str_whole (x ∷ xs) h = ground (arith, c_str_whole xs)

no_zero : (xs : List ℕ) → count 0 (c_str xs) ≡ 0
unfolding c_str
no_zero [] = refl
no_zero (x ∷ xs) = ground (arith, no_zero xs)

-- When the two do the same: a level that is on logs a text without a zero byte; a level that is off
-- leaves the operand without effect.
abbrev pub Agrees : {World : Type 0} → Bool → List ℕ → World → World → Type 0
Agrees true text v w = count 0 text ≡ 0
Agrees false text v w = v ≡ w

module _ {World : Type 0} (lib : Log4cplus World) (laws : IsLog4cplus lib) (l : Level)
    (x : Operand World) (w : World) (steady : lib.enabled l (x w).1 ≡ lib.enabled l w)
    (apart : (t u : List ℕ) (v : World) → lib.append l t v ≡ lib.append l u v → t ≡ u) where
  stream_logs :
      lib.enabled l w ≡ true → log_stream lib l (x ∷ []) w ≡ lib.append l (c_str (x w).0) (x w).1
  unfolding log_stream inserted
  stream_logs on =
      laws.logs l _ (x w).1 (steady ∙ on)
      ∙ ap (λ t. lib.append l t (x w).1) (c_str-ends ((x w).0 ++ []) ∙ rw append-nil refl)

  stream_skips : lib.enabled l w ≡ false → log_stream lib l (x ∷ []) w ≡ (x w).1
  unfolding log_stream inserted
  stream_skips off = laws.skips l _ (x w).1 (steady ∙ off)

  -- The macros of util/logger.h and those of uvcppclient/logger.h do the same with an argument that
  -- has no `<<` of its own outside parentheses exactly if its text has no zero byte, where the level is on, and evaluating it changes nothing, where the level
  -- is off. The conditions: log4cplus evaluates and logs an argument exactly if the level is on, to
  -- evaluate it does not turn the level on or off, and different texts are logged differently.
  pub versions_agree :
      (log lib l x w ≡ log_stream lib l (x ∷ []) w) ↔ Agrees (lib.enabled l w) (x w).0 (x w).1 w
  unfolding log
  versions_agree = elim (Bool-cases (lib.enabled l w)) [
    | inl on ↦
        rw (on, laws.logs l x w on, stream_logs on)
          (
            (λ e. ap (count 0) (apart (x w).0 (c_str (x w).0) (x w).1 e) ∙ no_zero (x w).0),
            (λ h. ap (λ t. lib.append l t (x w).1) (sym (c_str_whole (x w).0 h))),
          )
    | inr off ↦ rw (off, laws.skips l x w off, stream_skips off) ((λ e. sym e), (λ e. sym e))
  ]
