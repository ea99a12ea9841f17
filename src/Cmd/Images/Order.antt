-- ===== src/Cmd/Images/Order.antt =====
-- cmd/images.go: the order of the rows, `sortFunc` and the call of `sort.Slice`.
use podman_bootc.Base.{
  Bool, true, false, List, [], ◌∷◌, Text, lit, text_eq, ltb, ◌==◌, slice_to, Option, some,
  if◌then◌else◌,
}
use podman_bootc.Base.Int.{ℤ, pos, add64, ltb_ℤ}
use podman_bootc.Cmd.Images.{ImageSummary, ImageReporter, collect_rows, Reference}
use podman_bootc.Go.Errors
use podman_bootc.Go.Errors.{Result, ok, err, panic}
use podman_bootc.World.Calls.{Answer}

-- `s < t` on strings: the first different byte decides.
unfoldable pub text_lt : Text → Text → Bool
text_lt s [] = false
text_lt [] (b ∷ t) = true
text_lt (a ∷ s) (b ∷ t) = let rest = text_lt s t in if a == b then rest else ltb a b

-- `ID()`, which panics where the id is shorter than twelve bytes.
unfoldable pub short_id : ImageReporter → Option Text
short_id i = slice_to 12 i.summary.id

-- `created()`, as the seconds since the year 1 that a `time.Time` holds: `time.Unix` adds the seconds
-- from the year 1 to 1970 to an int64.
unfoldable pub created_time : ImageReporter → ℤ
created_time i = add64 i.summary.created (pos 62135596800)

-- `data[i].created().After(data[j].created())`.
unfoldable pub is_newer : ImageReporter → ImageReporter → Bool
unfolding created_time
is_newer a b = ltb_ℤ (created_time b) (created_time a)

abbrev pub less_ids : Option Text → Option Text → Result Bool
less_ids (some a) (some b) = ok (text_lt a b)
less_ids _ _ = panic

-- `sortFunc(key, data)`, on two elements in place of their indices.
unfoldable pub sort_func : Text → ImageReporter → ImageReporter → Result Bool
unfolding is_newer
sort_func key a b =
    if text_eq key (lit "id")
    then less_ids (short_id a) (short_id b)
    else if text_eq key (lit "repository")
    then ok (text_lt a.repository b.repository)
    else if text_eq key (lit "size")
    then ok (ltb_ℤ a.summary.size b.summary.size)
    else if text_eq key (lit "tag")
    then ok (text_lt a.tag b.tag)
    else ok (is_newer a b)

module _ {A : Type 0} (less : A → A → Result Bool) where
  -- An element goes before the first of the elements in order that it is less than.
  unfoldable pub put : A → List A → Result (List A)
  put x [] = ok (x ∷ [])
  put x (y ∷ ys) =
      let rest = put x ys in
      Errors.◌>>=◌ (less x y)
        (λ b. if b then ok (x ∷ y ∷ ys) else Errors.◌>>=◌ rest (λ zs. ok (y ∷ zs)))

  unfoldable pub put_all : List A → List A → Result (List A)
  unfolding put
  put_all done [] = ok done
  put_all done (x ∷ xs) = Errors.◌>>=◌ (put x done) (λ done'. put_all done' xs)

  -- `sort.Slice(xs, less)`. Go leaves the order of equal elements open; here they keep theirs, as in
  -- its insertion sort of up to twelve elements.
  unfoldable pub sort_slice : List A → Result (List A)
  unfolding put_all
  sort_slice xs = put_all [] xs

-- `sortImages(imageS)`.
unfoldable pub sort_images :
    (Text → Answer Reference) → List ImageSummary → Result (List ImageReporter)
unfolding sort_func sort_slice
sort_images parse images =
    Errors.◌>>=◌ (collect_rows parse images) (sort_slice (sort_func (lit "created")))
