-- ===== src/Config/Url/Trailing.antt =====
-- thaum/types.py: what the base URL looks like, whatever its source.
use thaum.Prelude.{ℕ, zero, suc, ◌≡◌, refl, sym, ap, Option, none, some, List, [], ◌∷◌, ◌++◌, arith}
use thaum.Text.{Text, codes, is_space, lstrip, rstrip, strip, rstrip_char}
use thaum.Dict.{Dict, get}
use thaum.Config.Url.{
  from_environment, BaseUrl, strip_base_url_candidate, env_candidate, Source, url_of, first_url,
  url_sources, resolve_base_url,
}

rstrip_char_idem : (k : ℕ) (s : Text) → rstrip_char k (rstrip_char k s) ≡ rstrip_char k s
unfolding rstrip_char
rstrip_char_idem k [] = refl
rstrip_char_idem k (c ∷ s) = ground (arith, rstrip_char_idem k s)

none_never : (u : BaseUrl) → none ≡ some u → rstrip_char b'/' u.0 ≡ u.0
none_never u e = absurd (never e)
  where
    never : none ≡ some u → ⊥
    never h = cc

url_of-no_slash :
    (c : Source) (candidate : Option Text) (later : Option BaseUrl) (u : BaseUrl)
    → (later ≡ some u → rstrip_char b'/' u.0 ≡ u.0)
    → url_of c candidate later ≡ some u
    → rstrip_char b'/' u.0 ≡ u.0
unfolding url_of
url_of-no_slash c none later u h e = h e
url_of-no_slash c (some url) later u h e =
    rw (sym (same e)) (rstrip_char_idem b'/' (c.scheme ++ url))
  where
    same :
        some (rstrip_char b'/' (c.scheme ++ url), c.source) ≡ some u
        → rstrip_char b'/' (c.scheme ++ url) ≡ u.0
    same h = cc

first_url-no_slash :
    (cs : List Source) (u : BaseUrl) → first_url cs ≡ some u → rstrip_char b'/' u.0 ≡ u.0
unfolding first_url
first_url-no_slash [] u e = none_never u e
first_url-no_slash (c ∷ cs) u e =
    url_of-no_slash c c.candidate (first_url cs) u (first_url-no_slash cs u) e

-- Wherever the base URL comes from (the environment, the configuration or one of the cloud hosts),
-- it has no slash at its end.
pub resolve_base_url-no_slash :
    (env : Dict Text) (config_base_url : Option Text) (u : BaseUrl)
    → resolve_base_url env config_base_url ≡ some u
    → rstrip_char b'/' u.0 ≡ u.0
unfolding resolve_base_url
resolve_base_url-no_slash env config_base_url u e =
    first_url-no_slash (url_sources env config_base_url) u e

-- A setting of slashes only.
unfoldable pub slashes : ℕ → Text
slashes zero = []
slashes (suc n) = b'/' ∷ slashes n

rstrip-slashes : (n : ℕ) → rstrip (slashes n) ≡ slashes n
unfolding rstrip is_space slashes
rstrip-slashes zero = refl
rstrip-slashes (suc n) = ap (λ s. b'/' ∷ s) (rstrip-slashes n)

rstrip_char-slashes : (n : ℕ) → rstrip_char b'/' (slashes n) ≡ []
unfolding rstrip_char slashes
rstrip_char-slashes zero = refl
rstrip_char-slashes (suc n) = rw (rstrip_char-slashes n) refl

strip_base_url_candidate-slashes :
    (n : ℕ) → strip_base_url_candidate (some (slashes (suc n))) ≡ some (slashes (suc n))
unfolding strip_base_url_candidate strip lstrip rstrip is_space slashes
strip_base_url_candidate-slashes n = ap (λ s. some (b'/' ∷ s)) (rstrip-slashes n)

-- When the variable THAUM_BASE_URL is set to slashes only, the base URL is empty, though a URL may
-- be configured: the setting counts as given, and then nothing of it is left.
pub resolve_base_url-slashes :
    (n : ℕ) (env : Dict Text) (config_base_url : Option Text)
    → get (codes "THAUM_BASE_URL") env ≡ some (slashes (suc n))
    → resolve_base_url env config_base_url ≡ some ([], from_environment)
unfolding resolve_base_url url_sources env_candidate first_url url_of
resolve_base_url-slashes n env config_base_url e =
    rw (e, strip_base_url_candidate-slashes n, rstrip_char-slashes (suc n)) refl
