-- ===== src/Http/BasePath/Tests.antt =====
-- A base path that is typed carelessly, and a request below it.
use sobs.Prelude.{◌≡◌, ◌≢◌, ◌⊎◌, refl, false, none, [], ◌∷◌, arith}
use sobs.Text.{lit, Text, trim_space, text_eq, has_prefix, cut_suffix}
use sobs.Http.{Request}
use sobs.Http.BasePath.{normalize_base_path, effective_base_path, apply_base_path}
use sobs.Http.BasePath.Normal.{IsBasePath, normalize_base_path-IsBasePath}
use sobs.Http.BasePath.Strip.{Strips, apply_base_path-Strips}

normalize_base_path-IsBasePath_example :
    (normalize_base_path (lit " sobs//app/ ") ≡ [])
    ⊎ IsBasePath (normalize_base_path (lit " sobs//app/ "))
normalize_base_path-IsBasePath_example = normalize_base_path-IsBasePath (lit " sobs//app/ ")

abbrev below_sobs : Request
below_sobs = record {
  method = lit "GET";
  path = lit "/sobs/logs";
  raw_path = [];
  header = λ name. [];
  cookie = λ name. none;
  host = lit "localhost";
  remote_addr = [];
  tls = false;
}

effective_base_path-present : effective_base_path (lit "/sobs") below_sobs ≢ []
unfolding effective_base_path normalize_base_path lit
effective_base_path-present = λ h. ground arith

apply_base_path-Strips_example :
    Strips
      (effective_base_path (lit "/sobs") below_sobs)
      below_sobs.path
      (apply_base_path (lit "/sobs") below_sobs).path
apply_base_path-Strips_example =
    apply_base_path-Strips (lit "/sobs") below_sobs effective_base_path-present

-- A slash, a tab and a host: the browsers that drop the tab read it as //evil.com.
abbrev tab_path : Text
tab_path = b'/' ∷ 9 ∷ lit "/evil.com"

tab_path-normal : normalize_base_path tab_path ≡ tab_path
unfolding normalize_base_path lit trim_space text_eq has_prefix cut_suffix
tab_path-normal = refl
