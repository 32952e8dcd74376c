-- ===== src/Alerts.antt =====
-- alerts/base.py: the short ids of alerts. The results of `secrets.choice` are given as the list of
-- the positions that it picks in the alphabet.
use thaum.Prelude.{ℕ, zero, suc, List, [], ◌∷◌, ◌++◌}
use thaum.Text.{Text, codes}

unfoldable pub alphabet : Text
alphabet = codes "ABCDEFGHJKLMNPQRSTUVWXYZ23456789"

unfoldable pub char_at : Text → ℕ → Text
char_at [] i = []
char_at (c ∷ s) zero = c ∷ []
char_at (c ∷ s) (suc i) = char_at s i

unfoldable pub generate_short_id : List ℕ → Text
unfolding alphabet char_at
generate_short_id [] = []
generate_short_id (i ∷ picks) = char_at alphabet i ++ generate_short_id picks
