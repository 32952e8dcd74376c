-- ===== src/Lookup/Responders/Tests.antt =====
-- References to responders, resolved on an empty cache.
use thaum.Prelude.{Option, none, List, [], ◌∷◌}
use thaum.Text.{Text, codes}

abbrev exact : Text → List Text → Option Text
exact name names = none

abbrev some_refs : List Text
some_refs = codes "ann@x.org" ∷ codes "id:team:t1" ∷ codes " " ∷ []

abbrev more_refs : List Text
more_refs = codes "person:bob@x.org" ∷ codes "Ops" ∷ []
