-- ===== src/Handlers/StaticFiles.antt =====
-- src/handlers/static_files.rs: the front end, from the files that rust_embed put into the program.
-- `get` is the lookup that rust_embed derives, `from_path` is mime_guess's, `from_str` tells whether
-- http takes a text as the value of a header.
pub mod Served
use Prim.Native.String.{[], ◌∷◌}
use vps_monitor_webui.Prelude.{ℕ, String, Bool, ◌||◌, ◌==◌, List, Option, none, some, if◌then◌else◌}
use vps_monitor_webui.Result.{unwrap_or}
use vps_monitor_webui.Collectors.Docker.{trim_slashes}

-- A response: a file with its two headers, or the text "not found" with status 404.
pub data StaticResponse : Type 0 where
  file : (content_type cache_control : String) (body : List ℕ) → StaticResponse
  not_found_page : StaticResponse

-- str::ends_with
unfoldable pub ends_with : String → String → Bool
ends_with [] t = [] == t
ends_with (c ∷ s) t = (c ∷ s) == t || ends_with s t

-- The file that a path of the URI asks for.
unfoldable pub asked_file : String → String
asked_file uri_path = let raw = trim_slashes uri_path in if raw == "" then "index.html" else raw

abbrev pub cache_control_of : String → String
cache_control_of path =
    if ends_with path ".html"
    then "no-cache, no-store, must-revalidate"
    else "public, max-age=86400"

module _ (get : String → Option (List ℕ)) (from_path : String → String)
    (from_str : String → Option String) where
  abbrev pub content_type_of : String → String
  content_type_of path = unwrap_or (from_str (from_path path)) "application/octet-stream"

  abbrev pub serve : String → List ℕ → StaticResponse
  serve path body = file (content_type_of path) (cache_control_of path) body

  abbrev fall_back : Option (List ℕ) → StaticResponse
  fall_back none = not_found_page
  fall_back (some idx) = serve "index.html" idx

  abbrev serve_or_fall_back : String → Option (List ℕ) → StaticResponse
  serve_or_fall_back path none = fall_back (get "index.html")
  serve_or_fall_back path (some body) = serve path body

  unfoldable pub handler : String → StaticResponse
  handler uri_path = serve_or_fall_back (asked_file uri_path) (get (asked_file uri_path))
