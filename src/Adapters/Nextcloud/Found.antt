-- ===== src/Adapters/Nextcloud/Found.antt =====
-- The files that adapters/nextcloud.py returns.
use mathlib.Core.List.Memᴰ
use text.Mathlib.TextPositions.{starts_with-append}
use grantora.Prelude.{
  ℕ, ℤ, pos, String, ◌≡◌, ◌≢◌, refl, ◌≤◌, ◌<◌, ◌⊎◌, inl, inr, true, false, Option, none, some, List,
  [], ◌∷◌, arith, length, take, length-take, Memᴰ, ◌==◌, eq_iff, string_eq, Bool-cases,
  Option-cases,
}
use grantora.Prelude.Text.{strip, starts_with, last_segment, rstrip_slash}
use grantora.Json.{Json, null, bool, num, str, arr, obj, Fields}
use grantora.Adapters.{AdapterResult}
use grantora.Adapters.Http.{Response}
use grantora.Adapters.Upstream.{Options, too_large, first_string}
use grantora.Adapters.Upstream.Answers.{
  Fails, error_of_status-Fails, error_of_status-none, Gives, answer-Gives, failure-Gives,
  first_string-Texts,
}
use grantora.Adapters.Nextcloud.Files.{
  Library, cleaned, moment_keys, size_of, moment_of, file_value, with_slash, path_text, path_of,
  normalize_path, file_path, file_item, name_keys, name_of, mime_type_of, int_of, size_keys,
  bytes_of, file_int, modified_at, normalized_file, normalize_all, normalized_files,
  extract_file_items,
}
use grantora.Adapters.Nextcloud.Search.{error_result_from_response, read_response}

-- An object with an absolute path, a name that is not empty, a type, a size and a moment that may be
-- unknown, and the source.
pub record IsFile (fs : Fields) : Type 0 where
  pub path : String
  pub name : String
  pub mime_type : String
  pub size : Json
  pub moment : Json
  pub form : fs ≡ file_item path name mime_type size moment
  pub absolute : starts_with path "/" ≡ true
  pub has_name : name ≢ ""
  pub size_known : (size ≡ null) ⊎ ((n : ℤ) × (size ≡ num n))
  pub moment_known : (moment ≡ null) ⊎ ((t : String) × (moment ≡ str t))

all-cons :
    (f : Fields) (files : List Fields)
    → IsFile f
    → ((fs : Fields) → Memᴰ fs files → IsFile fs)
    → (fs : Fields) → Memᴰ fs (f ∷ files)
    → IsFile fs
all-cons f files h k fs (Memᴰ.head e) = rw e h
all-cons f files h k fs (Memᴰ.tail m) = k fs m

-- A function of the standard library has raised.
module _ (library : Library) where
  pub data LibraryRaises : Type 0 where
    no_url : (value : String) → library.urlparse value ≡ none → LibraryRaises
    no_moment : (n : ℤ) → library.timestamp n ≡ none → LibraryRaises
    no_number : (s : String) → library.isdigit s ≡ true → library.int s ≡ none → LibraryRaises

  abbrev IsSize : Option Json → Type 0
  IsSize o = (m : Json) × (o ≡ some m) × ((m ≡ null) ⊎ ((n : ℤ) × (m ≡ num n)))

  size_of-known : (v : Json) → LibraryRaises ⊎ IsSize (size_of library v)
  size_of-known (num n) = inr (_, refl, inr (n, refl))
  size_of-known (str s) = elim (Bool-cases (library.isdigit s)) [
    | inr text ↦ inr (null, rw (size_of, text) refl, inl refl)
    | inl digits ↦ elim (Option-cases (library.int s)) [
      | inl raises ↦ inl (no_number s digits raises)
      | inr (n, e) ↦ inr (num (pos n), rw (size_of, int_of, digits, e) refl, inr (pos n, refl))
    ]
  ]
  size_of-known null = inr (_, refl, inl refl)
  size_of-known (bool b) = inr (_, refl, inl refl)
  size_of-known (arr xs) = inr (_, refl, inl refl)
  size_of-known (obj fs) = inr (_, refl, inl refl)

  bytes_of-known : (fs : Fields) → LibraryRaises ⊎ IsSize (bytes_of library fs)
  unfolding file_int
  bytes_of-known fs = size_of-known (file_value fs size_keys)

  moment_of-known :
      (v : Json)
      → LibraryRaises
        ⊎ ((m : Json) × (moment_of library v ≡ some m)
            × ((m ≡ null) ⊎ ((t : String) × (m ≡ str t))))
  moment_of-known (num n) = elim (Option-cases (library.timestamp n)) [
    | inl raises ↦ inl (no_moment n raises)
    | inr (t, e) ↦ inr (str t, rw (moment_of, e) refl, inr (t, refl))
  ]
  moment_of-known (str s) = elim (Bool-cases (strip s == "")) [
    | inl blank ↦ inr (null, rw (moment_of, blank) refl, inl refl)
    | inr text ↦ inr (str (strip s), rw (moment_of, text) refl, inr (_, refl))
  ]
  moment_of-known null = inr (_, refl, inl refl)
  moment_of-known (bool b) = inr (_, refl, inl refl)
  moment_of-known (arr xs) = inr (_, refl, inl refl)
  moment_of-known (obj fs) = inr (_, refl, inl refl)

  with_slash-absolute : (path : String) → starts_with (with_slash path) "/" ≡ true
  with_slash-absolute path = elim (Bool-cases (starts_with path "/")) [
    | inl absolute ↦ rw absolute absolute
    | inr relative ↦ rw relative (starts_with-append "/" path)
  ]

  normalize_path-absolute :
      (value : String)
      → LibraryRaises
        ⊎ ((p : String) × (normalize_path library value ≡ some p) × (starts_with p "/" ≡ true))
  unfolding normalize_path
  normalize_path-absolute value = elim (Option-cases (library.urlparse value)) [
    | inl raises ↦ inl (no_url value raises)
    | inr (parsed, e) ↦
        let path = cleaned library value parsed in
        inr (with_slash path, rw (normalize_path, e) refl, with_slash-absolute path)
  ]

  abbrev IsPath : Option (Option String) → Type 0
  IsPath o = (o ≡ some none) ⊎ ((p : String) × (o ≡ some (some p)) × (starts_with p "/" ≡ true))

  path_of-IsPath : (o : Option String) → LibraryRaises ⊎ IsPath (path_of library o)
  path_of-IsPath none = inr (inl refl)
  path_of-IsPath (some value) = elim (normalize_path-absolute value) [
    | inl raises ↦ inl raises
    | inr (p, e, absolute) ↦ inr (inr (p, rw (path_of, e) refl, absolute))
  ]

  file_path-IsPath : (fs : Fields) → LibraryRaises ⊎ IsPath (file_path library fs)
  unfolding file_path
  file_path-IsPath fs = path_of-IsPath (path_text fs)

  absolute-not_empty : (path : String) → starts_with path "/" ≡ true → path ≢ ""
  absolute-not_empty path h e =
      let wrong : starts_with "" "/" ≡ true = rw e at h in ground (arith, wrong)

  name_of-not_empty : (fs : Fields) (path : String) → path ≢ "" → name_of fs path ≢ ""
  name_of-not_empty fs path h = elim (Option-cases (first_string name_keys fs)) [
    | inr (name, e) ↦ rw (name_of, e) (first_string-Texts name_keys fs name e)
    | inl none_given ↦ elim (Bool-cases (last_segment (rstrip_slash path) == "")) [
      | inl root ↦ rw (name_of, none_given, root) h
      | inr inner ↦
          rw (name_of, none_given, inner)
            (λ e. ground (arith, inner, eq_iff (last_segment (rstrip_slash path)) ""))
    ]
  ]

  -- What becomes of a file: a function raises, it is refused, or it is an object of that form.
  abbrev IsRead : Option (Option Fields) → Type 0
  IsRead o = (o ≡ some none) ⊎ ((fs : Fields) × (o ≡ some (some fs)) × IsFile fs)

  normalized_file-IsRead :
      (raw_file : Fields) → LibraryRaises ⊎ IsRead (normalized_file library raw_file)
  unfolding normalized_file modified_at
  normalized_file-IsRead raw_file = elim (file_path-IsPath raw_file) [
    | inl raises ↦ inl raises
    | inr (inl missing) ↦ inr (inl (rw (normalized_file, missing) refl))
    | inr (inr (path, e, absolute)) ↦ elim (bytes_of-known raw_file) [
      | inl raises ↦ inl raises
      | inr (size, e', size_known) ↦ elim (moment_of-known (file_value raw_file moment_keys)) [
        | inl raises ↦ inl raises
        | inr (moment, e'', known) ↦ inr (
            inr (
              file_item path (name_of raw_file path) (mime_type_of raw_file) size moment,
              rw (normalized_file, e, e', e'') refl,
              record {
                path = path;
                name = name_of raw_file path;
                mime_type = mime_type_of raw_file;
                size = size;
                moment = moment;
                form = refl;
                absolute = absolute;
                has_name = name_of-not_empty raw_file path (absolute-not_empty path absolute);
                size_known = size_known;
                moment_known = known;
              },
            ))
      ]
    ]
  ]

  -- The same of a list of files.
  abbrev AreRead : ℕ → Option (Option (List Fields)) → Type 0
  AreRead most o =
      (o ≡ some none)
      ⊎ ((files : List Fields) × (o ≡ some (some files))
          × (length files ≤ most)
          × ((fs : Fields) → Memᴰ fs files → IsFile fs))

  normalize_all-AreRead :
      (raw_files : List Fields)
      → LibraryRaises ⊎ AreRead (length raw_files) (normalize_all library raw_files)
  unfolding normalize_all
  normalize_all-AreRead [] = inr (inr ([], refl, omega arith, λ fs m. absurd (Memᴰ.not-nil m)))
  normalize_all-AreRead (raw_file ∷ later) = elim (normalized_file-IsRead raw_file) [
    | inl raises ↦ inl raises
    | inr (inl refused) ↦ inr (inl (rw (normalize_all, refused) refl))
    | inr (inr (f, e, is_file)) ↦ elim (normalize_all-AreRead later) [
      | inl raises ↦ inl raises
      | inr (inl refused) ↦ inr (inl (rw (normalize_all, e, refused) refl))
      | inr (inr (files, e', few, each)) ↦ inr (
          inr (
            f ∷ files,
            rw (normalize_all, e, e') refl,
            omega (arith, few),
            all-cons f files is_file each,
          ))
    ]
  ]

  normalized_files-AreRead :
      (payload : Json) (limit : ℕ)
      → LibraryRaises ⊎ AreRead limit (normalized_files library payload limit)
  unfolding normalized_files
  normalized_files-AreRead payload limit = elim (Option-cases (extract_file_items payload)) [
    | inl refused ↦ inr (inl (rw (normalized_files, refused) refl))
    | inr (items, e) ↦ elim (normalize_all-AreRead (take limit items)) [
      | inl raises ↦ inl raises
      | inr (inl refused) ↦ inr (inl (rw (normalized_files, e) refused))
      | inr (inr (files, e', few, each)) ↦ inr (
          inr
            (files, rw (normalized_files, e) e', omega (arith, few, length-take limit items), each))
    ]
  ]

error_result-Fails : (p : Response) → Fails (error_result_from_response p)
unfolding error_result_from_response
error_result-Fails p = error_of_status-Fails _ p.status_code

error_result-none : (p : Response) → error_result_from_response p ≡ none → p.status_code < 400
unfolding error_result_from_response
error_result-none p h = error_of_status-none _ p.status_code h

module _ (library : Library) (options : Options) (limit : ℕ) (p : Response) {E : Type 0}
    (excuse : LibraryRaises library → E) where
  abbrev GivesFiles : Option AdapterResult → Type 0
  GivesFiles = Gives "files" IsFile limit E

  payload-Gives :
      (payload : Json)
      → error_result_from_response p ≡ none
      → too_large p options.max_response_bytes ≡ false
      → p.json ≡ some payload
      → GivesFiles (read_response library options limit p)
  unfolding read_response
  payload-Gives payload no_error small read =
      elim (normalized_files-AreRead library payload limit) [
        | inl raises ↦ inl (excuse raises)
        | inr (inl refused) ↦
            rw (read_response, no_error, small, read, refused) (failure-Gives _ _ _ _ _ _ _)
        | inr (inr (files, e, few, each)) ↦
            rw (read_response, no_error, small, read, e)
              (answer-Gives _ _ _ _ (
                inr (record {
                  found = files;
                  upstream_status = p.status_code;
                  answered = error_result-none p no_error;
                  result = refl;
                  at_most = few;
                  items = each;
                })))
      ]

  pub read_response-Gives : GivesFiles (read_response library options limit p)
  unfolding read_response
  read_response-Gives = elim (Option-cases (error_result_from_response p)) [
    | inr (failure, e) ↦
        rw (read_response, e) (answer-Gives _ _ _ _ (inl (error_result-Fails p failure e)))
    | inl no_error ↦ elim (Bool-cases (too_large p options.max_response_bytes)) [
      | inl large ↦ rw (read_response, no_error, large) (failure-Gives _ _ _ _ _ _ _)
      | inr small ↦ elim (Option-cases p.json) [
        | inl unreadable ↦
            rw (read_response, no_error, small, unreadable) (failure-Gives _ _ _ _ _ _ _)
        | inr (payload, read) ↦ payload-Gives payload no_error small read
      ]
    ]
  ]
