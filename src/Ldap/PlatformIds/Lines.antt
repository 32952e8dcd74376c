-- ===== src/Ldap/PlatformIds/Lines.antt =====
-- lookup/plugins/ldap_ad.py, parse_platform_ids_from_ldap_entry: what is written one id to a line is read.
use thaum.Prelude.{
  ℕ, ◌≡◌, refl, sym, ap, ◌∙◌, inl, inr, true, false, ◌&&◌, Option, some, List, [], ◌∷◌, ◌++◌, map,
  append-nil, append_assoc, arith, ◌==◌, if◌then◌else◌, Bool-cases, ==_iff, All, All-append,
}
use thaum.Text.{Text, text_eq, truthy, strip, has_char}
use thaum.Text.Strip.{strip-append}
use thaum.Dict.{Dict, set}
use thaum.Ldap.PlatformIds.{
  delimited, Value, Entry, nonblank, iter_ldap_attribute_string_values, Loaded, partition,
  id_of_line, ids_of_lines, ids_of_values, parse_platform_ids_from_ldap_entry,
}

abbrev line_of : ℕ → Text × Text → Text
line_of d (plugin, pid) = plugin ++ ((d ∷ []) ++ pid)

-- The values of an attribute that has a line for each id.
pub values_for : ℕ → Dict Text → List (Option Text)
values_for d [] = []
values_for d (id ∷ ids) = some (line_of d id) ∷ values_for d ids

-- Not empty, with no space at either end.
abbrev IsWord : Text → Type 0
IsWord s = (truthy s ≡ true) × (strip s ≡ s)

-- Words on both sides, each plugin once and without the delimiter.
abbrev pub IsIds : ℕ → Dict Text → Type 0
IsIds d [] = Unit
IsIds d ((plugin, pid) ∷ ids) =
    IsWord plugin
    × IsWord pid
    × (has_char d plugin ≡ false)
    × All (λ (id : Text × Text). text_eq plugin id.0 ≡ false) ids
    × IsIds d ids

abbrev Apart : Dict Text → Dict Text → Type 0
Apart out ids =
    All (λ (id : Text × Text). All (λ (o : Text × Text). text_eq o.0 id.0 ≡ false) out) ids

set_new :
    (k v : Text) (out : Dict Text)
    → All (λ (o : Text × Text). text_eq o.0 k ≡ false) out
    → set k v out ≡ out ++ (k, v) ∷ []
unfolding set
set_new k v [] a = refl
set_new k v ((j, w) ∷ out) (e, a) = rw e (ap (λ rest. (j, w) ∷ rest) (set_new k v out a))

Apart-add :
    (out ids : Dict Text) (plugin pid : Text)
    → All (λ (id : Text × Text). text_eq plugin id.0 ≡ false) ids
    → Apart out ids
    → Apart (out ++ (plugin, pid) ∷ []) ids
Apart-add out [] plugin pid new a = tt
Apart-add out ((k, v) ∷ ids) plugin pid (e, new) (b, a) = (
  All-append (λ (o : Text × Text). text_eq o.0 k ≡ false) out ((plugin, pid) ∷ []) b (e, tt),
  Apart-add out ids plugin pid new a,
)

partition-line :
    (d : ℕ) (plugin pid : Text)
    → has_char d plugin ≡ false
    → partition d (plugin ++ d ∷ pid) ≡ (plugin, pid)
unfolding partition has_char
partition-line d [] pid h = rw ((==_iff d d).1 refl) refl
partition-line d (c ∷ plugin) pid h = elim (Bool-cases (c == d)) [
  | inl same ↦ ground arith
  | inr apart ↦ rw (apart, partition-line d plugin pid (rw apart at h)) refl
]

has_char-line : (d : ℕ) (plugin pid : Text) → has_char d (plugin ++ d ∷ pid) ≡ true
unfolding has_char
has_char-line d [] pid = rw ((==_iff d d).1 refl) refl
has_char-line d (c ∷ plugin) pid = rw (has_char-line d plugin pid) ground arith

truthy-line : (d : ℕ) (plugin pid : Text) → truthy (plugin ++ d ∷ pid) ≡ true
truthy-line d [] pid = refl
truthy-line d (c ∷ plugin) pid = refl

nonblank-values_for :
    (d : ℕ) (ids : Dict Text) → IsIds d ids → nonblank (values_for d ids) ≡ map (line_of d) ids
unfolding nonblank values_for
nonblank-values_for d [] v = refl
nonblank-values_for d ((plugin, pid) ∷ ids) ((p, p'), (q, q'), free, new, v) =
    rw (strip-append plugin (d ∷ []) pid p p' q q', truthy-line d plugin pid)
      (ap (λ rest. line_of d (plugin, pid) ∷ rest) (nonblank-values_for d ids v))

add_line : ℕ → Text → Dict Text → Dict Text
unfolding id_of_line
add_line d line out = if truthy line && has_char d line then id_of_line d line out else out

add_line-new :
    (d : ℕ) (plugin pid : Text) (out : Dict Text)
    → IsWord plugin
    → IsWord pid
    → has_char d plugin ≡ false
    → All (λ (o : Text × Text). text_eq o.0 plugin ≡ false) out
    → add_line d (strip (line_of d (plugin, pid))) out ≡ out ++ (plugin, pid) ∷ []
unfolding add_line id_of_line
add_line-new d plugin pid out (p, p') (q, q') free b =
    rw (strip-append plugin (d ∷ []) pid p p' q q') (
      rw (truthy-line d plugin pid, has_char-line d plugin pid)
        (rw (partition-line d plugin pid free)
          (rw (p', q') (rw (p, q) (set_new plugin pid out b)))))

ids_of_lines-all :
    (d : ℕ) (ids out : Dict Text)
    → IsIds d ids
    → Apart out ids
    → ids_of_lines d (map (line_of d) ids) out ≡ out ++ ids
unfolding ids_of_lines add_line
ids_of_lines-all d [] out v a = sym (append-nil out)
ids_of_lines-all d ((plugin, pid) ∷ ids) out (p, q, free, new, v) (b, a) =
    ap (ids_of_lines d (map (line_of d) ids)) (add_line-new d plugin pid out p q free b)
    ∙ ids_of_lines-all d ids (out ++ (plugin, pid) ∷ []) v (Apart-add out ids plugin pid new a)
    ∙ append_assoc out ((plugin, pid) ∷ []) ids

All-nothing : (ids : Dict Text) → Apart [] ids
All-nothing [] = tt
All-nothing (id ∷ ids) = (tt, All-nothing ids)

ids_of_values-lines :
    (loads : Text → Loaded) (d : ℕ) (values : List Text)
    → ids_of_values loads delimited d values ≡ ids_of_lines d values []
unfolding ids_of_values ids_of_lines
ids_of_values-lines loads d [] = refl
ids_of_values-lines loads d (value ∷ values) = refl

-- From an attribute that has, for each platform id, a value with the plugin, the delimiter and the id,
-- exactly these ids are read, in order: where plugins and ids are not empty and have no space at
-- their ends, and the plugins differ and do not contain the delimiter (the ids may).
pub parse_platform_ids-values_for :
    (loads : Text → Loaded) (entry : Entry) (attr_name : Text) (value : Value) (d : ℕ)
    (ids : Dict Text)
    → truthy (strip attr_name) ≡ true
    → entry.attribute attr_name ≡ some (record { values = some (values_for d ids); value = value })
    → IsIds d ids
    → parse_platform_ids_from_ldap_entry loads entry attr_name delimited d ≡ ids
unfolding parse_platform_ids_from_ldap_entry iter_ldap_attribute_string_values
parse_platform_ids-values_for loads entry attr_name value d ids named has v =
    rw (named, has, nonblank-values_for d ids v)
      (ids_of_values-lines loads d (map (line_of d) ids)
        ∙ ids_of_lines-all d ids [] v (All-nothing ids))
