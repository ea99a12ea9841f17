-- ===== src/Cmd/Images/Columns.antt =====
-- cmd/images.go: what is printed of a row, and the command `images`.
use podman_bootc.Base.{
  ℕ, suc, Bool, ◌&&◌, List, [], ◌∷◌, ◌++◌, Text, lit, take, drop, leb, ltb, if◌then◌else◌,
}
use podman_bootc.Cmd.Images.{ImageReporter}
use podman_bootc.Cmd.Images.Order.{short_id, sort_images}
use podman_bootc.Go.Errors.{new_error}
use podman_bootc.Utils.Machine.{get_machine_context}
use podman_bootc.World.Calls.{System}
use podman_bootc.World.Exec.{M, pure, fail, lift, if_nil, for_each, ◌>>=◌, list_images, time_now}

abbrev pub is_digit : ℕ → Bool
is_digit c = leb b'0' c && leb c b'9'

-- `strings.LastIndexFunc(s, unicode.IsNumber) + 1`, for a text of ASCII characters.
unfoldable pub number_end : Text → ℕ
number_end [] = 0
number_end (c ∷ s) = let n = number_end s in if ltb 0 n then suc n else if is_digit c then 1 else 0

-- `s[:j+1] + " " + s[j+1:]`.
unfoldable pub spaced : Text → Text
unfolding number_end
spaced s = take (number_end s) s ++ (b' ' ∷ drop (number_end s) s)

-- `{{if .X}}{{.X}}{{else}}<none>{{end}}`.
abbrev or_none : Text → Text
or_none [] = lit "<none>"
or_none (c ∷ s) = c ∷ s

-- `strings.Join(parts, sep)`.
unfoldable pub join_texts : Text → List Text → Text
join_texts sep [] = []
join_texts sep (s ∷ []) = s
join_texts sep (s ∷ t ∷ parts) = s ++ (sep ++ join_texts sep (t ∷ parts))

-- `History()`.
unfoldable pub history_of : ImageReporter → Text
unfolding join_texts
history_of i = join_texts (lit ", ") i.summary.history

module _ (sys : System) where
  -- `Size()`.
  unfoldable pub size_text : ImageReporter → Text
  unfolding spaced
  size_text i = spaced (sys.human_size_of i.summary.size)

  -- `Created()` and `CreatedSince()`, at a time.
  unfoldable pub created_since : ℕ → ImageReporter → Text
  created_since now i = sys.human_duration_since i.summary.created now ++ lit " ago"

  -- `CreatedAt()` and `CreatedTime()`.
  unfoldable pub created_at : ImageReporter → Text
  created_at i = sys.format_time_of i.summary.created

  -- A row, by the format of `lsFormatFromFlags`.
  unfoldable pub row_text : ℕ → ImageReporter → Text → Text
  unfolding size_text created_since join_texts
  row_text now i id =
      join_texts (b'\t' ∷ [])
        (or_none i.repository ∷ or_none i.tag ∷ id ∷ created_since now i ∷ size_text i ∷ [])

  -- The second execution in `writeImagesTemplate`: the rows that it prints. A panic of `ID` is an
  -- error of the template.
  unfoldable pub write_rows : List ImageReporter → M (List Text)
  write_rows imgs = for_each imgs (pure []) λ i again. do
    now ← time_now sys
    if_nil (short_id i) (fail (new_error (lit "error calling ID")))
        λ id. do rest ← again; pure (row_text now i id ∷ rest)

  -- `doImages(flags, args)`: the rows that are printed.
  unfoldable pub do_images : M (List Text)
  do_images = do
    _ ← get_machine_context sys
    image_list ← list_images sys (lit "label") (lit "containers.bootc=1")
    reports ← lift (sort_images sys.parse_reference image_list)
    write_rows reports
