-- ===== src/Cmd/Images.antt =====
-- cmd/images.go: the rows that `podman-bootc images` shows for the images of podman, before they are
-- sorted by time and printed.
pub mod Rows
pub mod Order
pub mod Sorted
pub mod Columns
pub mod Sizes
use podman_bootc.Base.{
  Bool, true, false, not, Text, lit, List, [], ◌∷◌, ◌++◌, text_eq, is_empty, if◌then◌else◌,
}
use podman_bootc.Go.Errors
use podman_bootc.Go.Errors.{Result, ok, err, panic, wrap}
pub use podman_bootc.World.Calls.{ImageSummary, Reference, unnamed, named, tagged}
use podman_bootc.World.Calls.{Answer, done, failed}

-- `imageReporter`.
pub record ImageReporter : Type 0 where
  pub repository : Text
  pub tag : Text
  pub summary : ImageSummary

unfoldable pub no_name : Text
no_name = lit "<none>"

-- `if name == "" { name = "<none>" }`.
abbrev or_no_name : Text → Text
or_no_name [] = no_name
or_no_name (c ∷ s) = c ∷ s

-- One row, on the list that its tag selects.
abbrev pub put_row :
    ImageReporter
    → List ImageReporter × List ImageReporter
    → List ImageReporter × List ImageReporter
put_row h (ts, us) = if text_eq h.tag no_name then (ts, h ∷ us) else (h ∷ ts, us)

-- The rows with a tag, or else the first one without, `untagged[0]`.
unfoldable pub shown : List ImageReporter × List ImageReporter → Result (List ImageReporter)
shown (t ∷ ts, us) = ok (t ∷ ts)
shown ([], u ∷ us) = ok (u ∷ [])
shown ([], []) = panic

-- `%q` of a printable text without quotes and backslashes, which would be escaped.
abbrev pub quoted : Text → Text
quoted s = b'"' ∷ (s ++ (b'"' ∷ []))

module _ (parse : Text → Answer Reference) where
  abbrev pub names_of : Text → Answer Reference → Result (Text × Text)
  names_of ref (failed e) = err e
  names_of ref (done unnamed) = ok (ref, no_name)
  names_of ref (done (named n)) = ok (or_no_name n, no_name)
  names_of ref (done (tagged n t)) = ok (or_no_name n, or_no_name t)

  -- `tokenRepoTag(ref)`.
  unfoldable pub token_repo_tag : Text → Result (Text × Text)
  token_repo_tag ref =
      if text_eq ref (lit "<none>:<none>") then ok (no_name, no_name) else names_of ref (parse ref)

  abbrev pub parsing : Text → Result (Text × Text) → Result (Text × Text)
  parsing tag (ok r) = ok r
  parsing tag (err e) = err (wrap (lit "parsing repository tag: " ++ quoted tag) e)
  parsing tag panic = panic

  -- The loop of `sortImages` over the tags of an image: the rows with a tag and those without.
  unfoldable pub split_tags :
      ImageSummary → List Text → Result (List ImageReporter × List ImageReporter)
  split_tags e [] = ok ([], [])
  split_tags e (tag' ∷ tags) = Errors.◌>>=◌ (parsing tag' (token_repo_tag tag')) (λ (r, t).
      Errors.◌>>=◌ (split_tags e tags)
        (λ rows. ok (put_row (record { repository = r; tag = t; summary = e }) rows)))

  abbrev pub rows_of : ImageSummary → List Text → Result (List ImageReporter)
  rows_of e [] = ok (record { repository = no_name; tag = no_name; summary = e } ∷ [])
  rows_of e (tag' ∷ tags) = Errors.◌>>=◌ (split_tags e (tag' ∷ tags)) shown

  -- The rows of one image in `sortImages`.
  unfoldable pub image_rows : ImageSummary → Result (List ImageReporter)
  image_rows e = rows_of e e.repo_tags

  -- The loop of `sortImages` over the images.
  unfoldable pub collect_rows : List ImageSummary → Result (List ImageReporter)
  unfolding image_rows
  collect_rows [] = ok []
  collect_rows (e ∷ images) =
      Errors.◌>>=◌ (image_rows e)
        (λ rows. Errors.◌>>=◌ (collect_rows images) (λ rest. ok (rows ++ rest)))
