-- ===== src/Config/Logging/Stable.antt =====
-- thaum/types.py: what the settings of the log files become.
use thaum.Prelude.{zero, suc, ◌≡◌, refl, sym, ap, inl, inr, true, false, [], ◌∷◌, Bool-cases}
use thaum.Text.{
  Text, codes, text_eq, truthy, is_space, lstrip, rstrip, strip, lower_char, lower, one_of,
}
use thaum.Config.Logging.{
  Value, null, boolean, integer, negative, string, default_log_file_path, off, to, invalid,
  log_file_of_text, normalize_log_file_value,
}
use thaum.Text.Strip.{strip_idem}

to_inj : {a b : Text} → to a ≡ to b → a ≡ b
to_inj e = cc

off-to : (p : Text) → off ≡ to p → ⊥
off-to p e = cc

invalid-to : (p : Text) → invalid ≡ to p → ⊥
invalid-to p e = cc

default-stable : log_file_of_text (strip default_log_file_path) ≡ to default_log_file_path
unfolding log_file_of_text strip lstrip rstrip is_space lower lower_char one_of text_eq
default-stable = refl

log_file_of_text-stable :
    (s p : Text) → log_file_of_text s ≡ to p → strip s ≡ s → log_file_of_text (strip p) ≡ to p
unfolding log_file_of_text
log_file_of_text-stable [] p e fixed = absurd (off-to p e)
log_file_of_text-stable (c ∷ s) p e fixed =
    elim (Bool-cases (one_of (lower (c ∷ s)) (codes "no" ∷ codes "false" ∷ codes "0" ∷ []))) [
      | inl off_word ↦ absurd (off-to p (rw off_word at e))
      | inr other ↦
          elim (Bool-cases (one_of (lower (c ∷ s)) (codes "yes" ∷ codes "true" ∷ codes "1" ∷ []))) [
            | inl on_word ↦ rw (sym (to_inj (rw (other, on_word) at e))) default-stable
            | inr path ↦
                let same : c ∷ s ≡ p = to_inj (rw (other, path) at e) in
                rw (sym same, fixed) (rw (other, path) refl)
          ]
    ]

to_default :
    (p : Text)
    → to default_log_file_path ≡ to p
    → (log_file_of_text (strip p) ≡ to p) × (truthy p ≡ true)
to_default p e = rw (sym (to_inj e)) (default-stable, refl)

log_file_of_text-truthy : (s p : Text) → log_file_of_text s ≡ to p → truthy p ≡ true
unfolding log_file_of_text
log_file_of_text-truthy [] p e = absurd (off-to p e)
log_file_of_text-truthy (c ∷ s) p e =
    elim (Bool-cases (one_of (lower (c ∷ s)) (codes "no" ∷ codes "false" ∷ codes "0" ∷ []))) [
      | inl off_word ↦ absurd (off-to p (rw off_word at e))
      | inr other ↦
          elim (Bool-cases (one_of (lower (c ∷ s)) (codes "yes" ∷ codes "true" ∷ codes "1" ∷ []))) [
            | inl on_word ↦ ap truthy (sym (to_inj (rw (other, on_word) at e)))
            | inr path ↦ ap truthy (sym (to_inj (rw (other, path) at e)))
          ]
    ]

-- A setting that gives a path for the log file, normalised again as the text of that path, gives
-- the same path, so that validating the settings twice changes nothing; and no path is empty.
pub normalize_log_file_value-stable :
    (v : Value) (p : Text)
    → normalize_log_file_value v ≡ to p
    → (normalize_log_file_value (string p) ≡ to p) × (truthy p ≡ true)
unfolding normalize_log_file_value
normalize_log_file_value-stable null p e = absurd (off-to p e)
normalize_log_file_value-stable (boolean true) p e = to_default p e
normalize_log_file_value-stable (boolean false) p e = absurd (off-to p e)
normalize_log_file_value-stable (integer zero) p e = absurd (off-to p e)
normalize_log_file_value-stable (integer (suc zero)) p e = to_default p e
normalize_log_file_value-stable (integer (suc (suc n))) p e = absurd (invalid-to p e)
normalize_log_file_value-stable (negative n) p e = absurd (invalid-to p e)
normalize_log_file_value-stable (string s) p e =
    (log_file_of_text-stable (strip s) p e (strip_idem s), log_file_of_text-truthy (strip s) p e)
