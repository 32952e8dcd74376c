-- ===== src/Config/Url.antt =====
-- thaum/types.py: the public base URL and where it came from.
pub mod Trailing
use thaum.Prelude.{Option, none, some, List, [], ◌∷◌, ◌++◌, if◌then◌else◌}
use thaum.Text.{Text, codes, truthy, strip, rstrip_char, lstrip_char}
use thaum.Dict.{Dict, get, set}

pub data BaseUrlSource : Type 0 where
  from_config from_environment from_google from_azure from_aws : BaseUrlSource

abbrev pub BaseUrl : Type 0
BaseUrl = Text × BaseUrlSource

-- `_strip_base_url_candidate`: blank is unset.
unfoldable pub strip_base_url_candidate : Option Text → Option Text
unfolding strip
strip_base_url_candidate none = none
strip_base_url_candidate (some value) = let s = strip value in if truthy s then some s else none

-- The environment is the dictionary `os.environ`.
unfoldable pub env_candidate : Text → Dict Text → Option Text
unfolding strip_base_url_candidate get
env_candidate name env = strip_base_url_candidate (get name env)

-- A source of the URL: the text before the candidate, and the candidate.
pub record Source : Type 0 where
  pub source : BaseUrlSource
  pub scheme : Text
  pub candidate : Option Text

unfoldable pub url_of : Source → Option Text → Option BaseUrl → Option BaseUrl
unfolding rstrip_char
url_of c none later = later
url_of c (some url) later = some (rstrip_char b'/' (c.scheme ++ url), c.source)

-- The first source that is set.
unfoldable pub first_url : List Source → Option BaseUrl
unfolding url_of
first_url [] = none
first_url (c ∷ cs) = url_of c c.candidate (first_url cs)

-- The host of an Azure container app.
unfoldable pub app_host : Option Text → Option Text → Option Text
unfolding lstrip_char
app_host none suffix = none
app_host (some name) none = none
app_host (some name) (some suffix) = some (name ++ codes "." ++ lstrip_char b'.' suffix)

abbrev pub only_if {ℓ} : {A B : Type ℓ} → Option A → Option B → Option B
only_if none b = none
only_if (some a) b = b

-- The sources in the order of their precedence.
unfoldable pub url_sources : Dict Text → Option Text → List Source
unfolding strip_base_url_candidate env_candidate app_host get
url_sources env config_base_url =
    record {
      source = from_environment;
      scheme = [];
      candidate = env_candidate (codes "THAUM_BASE_URL") env;
    }
    ∷ record {
      source = from_config;
      scheme = [];
      candidate = strip_base_url_candidate config_base_url;
    }
    ∷ record {
      source = from_google;
      scheme = [];
      candidate = only_if (get (codes "K_SERVICE") env) (env_candidate (codes "K_SERVICE_URL") env);
    }
    ∷ record {
      source = from_azure;
      scheme = codes "https://";
      candidate =
          app_host (env_candidate (codes "CONTAINER_APP_NAME") env)
            (env_candidate (codes "CONTAINER_APP_ENV_DNS_SUFFIX") env);
    }
    ∷ record {
      source = from_azure;
      scheme = codes "https://";
      candidate = env_candidate (codes "WEBSITE_HOSTNAME") env;
    }
    ∷ record {
      source = from_aws;
      scheme = [];
      candidate = env_candidate (codes "AWS_APP_RUNNER_SERVICE_URL") env;
    }
    ∷ []

-- `none` is the ValueError.
unfoldable pub resolve_base_url : Dict Text → Option Text → Option BaseUrl
unfolding first_url url_sources
resolve_base_url env config_base_url = first_url (url_sources env config_base_url)
