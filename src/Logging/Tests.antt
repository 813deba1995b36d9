-- ===== src/Logging/Tests.antt =====
-- The logging macros over a list of texts, and the theorem on their versions there.
use libuvwrapper.Base.{ℕ, ◌≡◌, refl, Bool, true, false, List, [], ◌∷◌, ◌↔◌}
use libuvwrapper.Logging.{
  Level, fatal, Operand, Log4cplus, IsLog4cplus, tlogger, initialize, get_root, get_instance,
  do_configure, make_log_dir, log, log_stream,
}
use libuvwrapper.Logging.Versions.{Agrees, versions_agree}

-- Fatal texts are logged, the last one first.
abbrev Texts : Type 0
Texts = List (List ℕ)

abbrev is_fatal : Level → Bool
is_fatal fatal = true
is_fatal _ = false

abbrev note : Bool → List ℕ × Texts → Texts → Texts
note true (t, w) v = t ∷ w
note false r v = v

abbrev only_fatal : Log4cplus Texts
only_fatal = record {
  macro = λ l x w. note (is_fatal l) (x w) w;
  enabled = λ l w. is_fatal l;
  append = λ l t w. t ∷ w;
}

only_fatal-IsLog4cplus : IsLog4cplus only_fatal
only_fatal-IsLog4cplus = record { logs = λ l x w on. rw on refl; skips = λ l x w off. rw off refl }

same_head : (t u : List ℕ) (v : Texts) → t ∷ v ≡ u ∷ v → t ≡ u
same_head t u v e = cc

-- An operand with a zero byte in it.
abbrev split_text : Operand Texts
split_text w = (104 ∷ 0 ∷ 105 ∷ [], w)

versions_agree_example :
    (log only_fatal fatal split_text [] ≡ log_stream only_fatal fatal (split_text ∷ []) [])
    ↔ Agrees {World = Texts} true (104 ∷ 0 ∷ 105 ∷ []) [] []
versions_agree_example =
    versions_agree only_fatal only_fatal-IsLog4cplus fatal split_text [] refl
      (λ t u v e. same_head t u v e)

stream_cuts : log_stream only_fatal fatal (split_text ∷ []) [] ≡ (104 ∷ []) ∷ []
unfolding log_stream
stream_cuts = refl

-- LOG_FATAL(1 << 2): a shift in the one version, two texts in the other.
abbrev shown : ℕ → Operand Texts
shown digit w = (digit ∷ [], w)

shift_splits :
    (log only_fatal fatal (shown 52) [] ≡ (52 ∷ []) ∷ [])
    × (log_stream only_fatal fatal (shown 49 ∷ shown 50 ∷ []) [] ≡ (49 ∷ 50 ∷ []) ∷ [])
unfolding log log_stream
shift_splits = (refl, refl)

starts : tlogger true ≡ initialize ∷ get_root ∷ get_instance ∷ make_log_dir 755 ∷ do_configure ∷ []
unfolding tlogger
starts = refl
