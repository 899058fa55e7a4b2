-- ===== src/Adapters/Nextcloud/Files.antt =====
-- What adapters/nextcloud.py reads out of a payload. A value that raises is `none`; `some none` is the
-- `None` of the source.
use grantora.Prelude.{
  ℕ, String, Bool, Option, none, some, List, [], ◌∷◌, pos, take, or_else, ◌==◌, string_eq,
  if◌then◌else◌,
}
use grantora.Prelude.{ℤ}
use grantora.Prelude.Text.{strip, ◌<>◌, starts_with, text_after, rstrip_slash, last_segment}
use grantora.Json.{Json, null, num, str, arr, obj, Fields, end, field, field?, or_null}
use grantora.Adapters.Upstream.{first_present, nonblank, first_string, as_mappings}

-- What is called of the standard library: `urlparse` gives the scheme and the path, `timestamp` the
-- text of a moment in seconds, `int` the number of a text for which `isdigit` holds; `none` where they
-- raise, as `int` does at a superscript and at more than 4300 digits.
pub record Library : Type 0 where
  pub b64encode : String → String
  pub urlparse : String → Option (String × String)
  pub unquote : String → String
  pub timestamp : ℤ → Option String
  pub isdigit : String → Bool
  pub int : String → Option ℕ

abbrev nextcloud_source : String
nextcloud_source = "nextcloud"

abbrev list_keys : List String
list_keys = "files" ∷ "entries" ∷ "results" ∷ "items" ∷ []

abbrev ocs_keys : List String
ocs_keys = "entries" ∷ "files" ∷ "results" ∷ "items" ∷ []

-- A list, or the list that an object has under one of the keys.
abbrev within : List String → Json → Json
within keys (obj fs) = first_present keys fs
within keys v = v

unfoldable pub items_from_ocs_payload : Fields → Json
unfolding first_present
items_from_ocs_payload payload = elim (or_null (field? "ocs" payload)) [
  | obj ocs ↦ within ocs_keys (or_null (field? "data" ocs))
  | _ ↦ null
]

-- `a`, or `b` where it is `None`.
abbrev or_value : Json → Json → Json
or_value null b = b
or_value a b = a

unfoldable pub extract_file_items : Json → Option (List Fields)
unfolding items_from_ocs_payload first_present as_mappings
extract_file_items (arr items) = as_mappings (arr items)
extract_file_items (obj payload) = as_mappings (
    or_value (items_from_ocs_payload payload) (
      or_value (first_present list_keys payload)
        (within list_keys (or_null (field? "data" payload)))))
extract_file_items _ = none

unfoldable pub file_value : Fields → List String → Json
unfolding first_present
file_value raw_file keys = elim (first_present keys raw_file) [
  | null ↦ elim (or_null (field? "attributes" raw_file)) [
    | obj attributes ↦ first_present keys attributes
    | _ ↦ null
  ]
  | v ↦ v
]

unfoldable pub file_string : Fields → List String → Option String
unfolding file_value nonblank
file_string raw_file keys = nonblank (file_value raw_file keys)

abbrev marker : String
marker = "/remote.php/dav/files/"

-- The path behind the marker and the user's name.
abbrev behind_marker : String → String
behind_marker path = elim (text_after marker path) [
  | none ↦ path
  | some rest ↦ or_else (text_after "/" rest) ""
]

-- What begins with a slash is not empty, so that `path or "/"` is the path.
abbrev pub with_slash : String → String
with_slash path = if starts_with path "/" then path else ("/" <> path)

-- The last part of a path that is not the root, and the root itself.
abbrev pub name_in_path : String → String
name_in_path path = let name = last_segment (rstrip_slash path) in if name == "" then path else name

abbrev pub file_item : String → String → String → Json → Json → Fields
file_item path name mime_type size moment = field "path" (str path) (
    field "display_name" (str name) (
      field "mime_type" (str mime_type) (
        field "size" size
          (field "modified_at" moment (field "source" (str nextcloud_source) end)))))

abbrev pub name_keys : List String
name_keys = "display_name" ∷ "displayName" ∷ "title" ∷ "name" ∷ "file_name" ∷ "fileName" ∷ []

abbrev pub name_of : Fields → String → String
name_of raw_file path = or_else (first_string name_keys raw_file) (name_in_path path)

abbrev pub mime_type_of : Fields → String
mime_type_of raw_file =
    or_else (file_string raw_file ("mime_type" ∷ "mimeType" ∷ "mimetype" ∷ "content_type" ∷ [])) ""

abbrev pub size_keys : List String
size_keys = "size" ∷ "bytes" ∷ "file_size" ∷ "fileSize" ∷ []

-- The path that the file has, or else its address.
abbrev pub path_text : Fields → Option String
path_text raw_file =
    elim (file_string raw_file ("path" ∷ "file_path" ∷ "filePath" ∷ "dav_path" ∷ "davPath" ∷ [])) [
      | some path ↦ some path
      | none ↦ file_string raw_file ("resourceUrl" ∷ "resource_url" ∷ "url" ∷ "link" ∷ "href" ∷ [])
    ]

abbrev pub moment_keys : List String
moment_keys = "modified_at" ∷ "modifiedAt" ∷ "last_modified" ∷ "mtime" ∷ []

module _ (library : Library) where
  abbrev pub int_of : String → Option Json
  int_of s = elim (library.int s) [ none ↦ none | some n ↦ some (num (pos n)) ]

  abbrev pub size_of : Json → Option Json
  size_of (num n) = some (num n)
  size_of (str s) = if library.isdigit s then int_of s else some null
  size_of _ = some null

  unfoldable pub file_int : Fields → List String → Option Json
  unfolding file_value
  file_int raw_file keys = size_of (file_value raw_file keys)

  abbrev pub bytes_of : Fields → Option Json
  bytes_of raw_file = file_int raw_file size_keys

  abbrev pub moment_of : Json → Option Json
  moment_of (num n) = elim (library.timestamp n) [ none ↦ none | some t ↦ some (str t) ]
  moment_of (str s) = some (if strip s == "" then null else str (strip s))
  moment_of _ = some null

  unfoldable pub modified_at : Fields → Option Json
  unfolding file_value strip
  modified_at raw_file = moment_of (file_value raw_file moment_keys)

  -- The path of a text with a scheme, or the whole text.
  abbrev pub cleaned : String → String × String → String
  cleaned value (scheme, url_path) =
      behind_marker (library.unquote (if scheme == "" then value else url_path))

  unfoldable pub normalize_path : String → Option String
  unfolding text_after
  normalize_path value = elim (library.urlparse value) [
    | none ↦ none
    | some parsed ↦ some (with_slash (cleaned value parsed))
  ]

  abbrev pub path_of : Option String → Option (Option String)
  path_of none = some none
  path_of (some value) = elim (normalize_path value) [ none ↦ none | some p ↦ some (some p) ]

  unfoldable pub file_path : Fields → Option (Option String)
  unfolding file_string normalize_path
  file_path raw_file = path_of (path_text raw_file)

  -- A name is left out only together with the path, without which there is no file.
  unfoldable pub normalized_file : Fields → Option (Option Fields)
  unfolding file_path first_string rstrip_slash last_segment file_string file_int modified_at
  normalized_file raw_file = elim (file_path raw_file) [
    | none ↦ none
    | some none ↦ some none
    | some (some path) ↦ elim (bytes_of raw_file) [
      | none ↦ none
      | some size ↦ elim (modified_at raw_file) [
        | none ↦ none
        | some moment ↦
            some (some (file_item path (name_of raw_file path) (mime_type_of raw_file) size moment))
      ]
    ]
  ]

  unfoldable pub normalize_all : List Fields → Option (Option (List Fields))
  unfolding normalized_file
  normalize_all [] = some (some [])
  normalize_all (raw_file ∷ later) =
      let rest = normalize_all later in
      elim (normalized_file raw_file) [
        | none ↦ none
        | some none ↦ some none
        | some (some fs) ↦ elim rest [
          | none ↦ none
          | some none ↦ some none
          | some (some files) ↦ some (some (fs ∷ files))
        ]
      ]

  unfoldable pub normalized_files : Json → ℕ → Option (Option (List Fields))
  unfolding extract_file_items normalize_all
  normalized_files payload limit = elim (extract_file_items payload) [
    | none ↦ some none
    | some items ↦ normalize_all (take limit items)
  ]
