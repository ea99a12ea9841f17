-- ===== src/Cmd/Images/Sorted.antt =====
-- cmd/images.go: the rows in the order in which `images` prints them.
use mathlib.Core.List.{Perm, perm_middle, append-nil}
use mathlib.Core.List.Perm
use podman_bootc.Base.{
  Bool, true, false, Bool-cases, inl, inr, ◌≡◌, refl, List, [], ◌∷◌, ◌++◌, Text, lit, text_eq, All,
  arith,
}
use podman_bootc.Base.Int.{ℤ, ltb_ℤ, ◌≤ℤ◌}
use podman_bootc.Cmd.Images.{ImageSummary, ImageReporter, Reference, collect_rows, image_rows}
use podman_bootc.Cmd.Images.Rows.{Outcome, Outcome-bind, Shown, NameError, image_rows-IsShown}
use podman_bootc.Cmd.Images.Order.{
  created_time, is_newer, sort_func, put, put_all, sort_slice, sort_images,
}
use podman_bootc.Go.Errors.{Error, Result, ok}
use podman_bootc.World.Calls.{Answer}

-- The first row was made no earlier than the second.
abbrev pub IsNotOlder : ImageReporter → ImageReporter → Type 0
IsNotOlder a b = created_time b ≤ℤ created_time a

-- Each row is followed by rows that were made no later.
abbrev pub IsNewestFirst : List ImageReporter → Type 0
IsNewestFirst [] = Unit
IsNewestFirst (a ∷ as') = All (IsNotOlder a) as' × IsNewestFirst as'

ltb_ℤ-le : (x y : ℤ) → ltb_ℤ x y ≡ true → x ≤ℤ y
ltb_ℤ-le x y h = ground (arith, h)

not-ltb_ℤ : (x y : ℤ) → ltb_ℤ x y ≡ false → y ≤ℤ x
not-ltb_ℤ x y h = ground (arith, h)

newer : (a b : ImageReporter) → is_newer a b ≡ true → IsNotOlder a b
unfolding is_newer
newer a b h = ltb_ℤ-le (created_time b) (created_time a) h

not_newer : (a b : ImageReporter) → is_newer a b ≡ false → IsNotOlder b a
unfolding is_newer
not_newer a b h = not-ltb_ℤ (created_time b) (created_time a) h

by_created : (a b : ImageReporter) → sort_func (lit "created") a b ≡ ok (is_newer a b)
unfolding sort_func text_eq lit
by_created a b = refl

IsNotOlder-All :
    (a b : ImageReporter) (xs : List ImageReporter)
    → IsNotOlder a b
    → All (IsNotOlder b) xs
    → All (IsNotOlder a) xs
IsNotOlder-All a b [] h k = tt
IsNotOlder-All a b (x ∷ xs) h k = (omega (arith, h, k.0), IsNotOlder-All a b xs h k.1)

-- What `put` gives back, in order and with the same rows.
record IsPut (x : ImageReporter) (ys zs : List ImageReporter) : Type 0 where
  same_rows : Perm zs (x ∷ ys)
  in_order : IsNewestFirst zs
  bounded : (a : ImageReporter) → IsNotOlder a x → All (IsNotOlder a) ys → All (IsNotOlder a) zs

abbrev by_time : ImageReporter → ImageReporter → Result Bool
by_time = sort_func (lit "created")

IsPut-first :
    (x y : ImageReporter) (ys : List ImageReporter)
    → is_newer x y ≡ true
    → IsNewestFirst (y ∷ ys)
    → IsPut x (y ∷ ys) (x ∷ y ∷ ys)
IsPut-first x y ys h order = record {
  same_rows = Perm.rfl;
  in_order = ((newer x y h, IsNotOlder-All x y ys (newer x y h) order.0), order);
  bounded = λ a k below. (k, below);
}

IsPut-later :
    (x y : ImageReporter) (ys zs : List ImageReporter)
    → is_newer x y ≡ false
    → IsNewestFirst (y ∷ ys)
    → IsPut x ys zs
    → IsPut x (y ∷ ys) (y ∷ zs)
IsPut-later x y ys zs h order p = record {
  same_rows = Perm.trans (Perm.cons y p.same_rows) (Perm.swap x y ys);
  in_order = (p.bounded y (not_newer x y h) order.0, p.in_order);
  bounded = λ a k below. (below.0, p.bounded a k below.1);
}

put-IsPut :
    (x : ImageReporter) (ys : List ImageReporter)
    → IsNewestFirst ys
    → (zs : List ImageReporter) × (put by_time x ys ≡ ok zs) × IsPut x ys zs
unfolding put
put-IsPut x [] order = (
  x ∷ [],
  refl,
  record { same_rows = Perm.rfl; in_order = (tt, tt); bounded = λ a k below. (k, tt) },
)
put-IsPut x (y ∷ ys) order = elim (Bool-cases (is_newer x y)) [
  | inl h ↦ (x ∷ y ∷ ys, rw (by_created x y, h) refl, IsPut-first x y ys h order)
  | inr h ↦
      let (zs, e, p) = put-IsPut x ys order.1 in
      (y ∷ zs, rw (by_created x y, h, e) refl, IsPut-later x y ys zs h order p)
]

put_all-IsPut :
    (done xs : List ImageReporter)
    → IsNewestFirst done
    → (zs : List ImageReporter) × (put_all by_time done xs ≡ ok zs)
      × Perm zs (xs ++ done)
      × IsNewestFirst zs
unfolding put_all
put_all-IsPut done [] order = (done, refl, Perm.rfl, order)
put_all-IsPut done (x ∷ xs) order =
    let (next, e, p) = put-IsPut x done order in
    let (zs, e', rows, order') = put_all-IsPut next xs p.in_order in
    (
      zs,
      rw e e',
      Perm.trans rows (Perm.trans (Perm.append_left xs p.same_rows) (perm_middle xs done)),
      order',
    )

module _ (parse : Text → Answer Reference) where
  -- The rows that the images are to have, one image after the other.
  pub data AllShown : List ImageSummary → List ImageReporter → Type 0 where
    no_image : AllShown [] []
    image :
        {e : ImageSummary} {images : List ImageSummary} {rows rest : List ImageReporter}
        → Shown parse e rows
        → AllShown images rest
        → AllShown (e ∷ images) (rows ++ rest)

  -- The error of the first image that has a name that is not parsed.
  pub data ImageError : List ImageSummary → Error → Type 0 where
    at_first :
        {e : ImageSummary} {images : List ImageSummary} {x : Error}
        → NameError parse e.repo_tags x
        → ImageError (e ∷ images) x
    after :
        {e : ImageSummary} {images : List ImageSummary} {rows : List ImageReporter} {x : Error}
        → Shown parse e rows
        → ImageError images x
        → ImageError (e ∷ images) x

  -- The rows of the images, the ones made last first.
  pub record Sorted (images : List ImageSummary) (sorted : List ImageReporter) : Type 0 where
    pub rows : List ImageReporter
    pub all_shown : AllShown images rows
    pub same_rows : Perm sorted rows
    pub in_order : IsNewestFirst sorted

  collect_rows-Outcome :
      (images : List ImageSummary)
      → Outcome (AllShown images) (ImageError images) (collect_rows parse images)
  unfolding collect_rows
  collect_rows-Outcome [] = no_image
  collect_rows-Outcome (e ∷ images) =
      Outcome-bind _ _ _ _ (image_rows parse e) _ (image_rows-IsShown parse e) (λ x h. at_first h)
        λ rows shown.
          Outcome-bind _ _ _ _ (collect_rows parse images) _ (collect_rows-Outcome images)
            (λ x h. after shown h) (λ rest all. image shown all)

  Sorted-Outcome :
      (images : List ImageSummary) (rows : List ImageReporter)
      → AllShown images rows
      → Outcome (Sorted images) (ImageError images) (sort_slice by_time rows)
  unfolding sort_slice
  Sorted-Outcome images rows shown =
      let (zs, e, p, order) = put_all-IsPut [] rows tt in
      rw e (record {
        rows = rows;
        all_shown = shown;
        same_rows = Perm.trans p (rw (append-nil rows) Perm.rfl);
        in_order = order;
      })

-- For every parser of references and list of images, `sortImages` does not panic, and: if it
-- returns rows, all names of all images were parsed, and the rows are those of each image, as often
-- as the image is to have them (the names with a tag, or else the first name, or `<none>` twice),
-- the ones of images made last first; if it returns an error, that is the error of the first name
-- that is not parsed.
pub sort_images-IsNewestFirst :
    (parse : Text → Answer Reference) (images : List ImageSummary)
    → Outcome (Sorted parse images) (ImageError parse images) (sort_images parse images)
unfolding sort_images
sort_images-IsNewestFirst parse images =
    Outcome-bind _ _ _ _ (collect_rows parse images) _ (collect_rows-Outcome parse images)
      (λ x h. h) (λ rows shown. Sorted-Outcome parse images rows shown)
