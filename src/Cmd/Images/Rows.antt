-- ===== src/Cmd/Images/Rows.antt =====
-- cmd/images.go: the rows of one image, and how its tags are split.
use podman_bootc.Base.{
  ◌++◌, Bool, true, false, not, ◌≡◌, refl, ap, Text, List, [], ◌∷◌, map, text_eq, lit,
  if◌then◌else◌,
}
use podman_bootc.Cmd.Images.{
  ImageSummary, Reference, ImageReporter, no_name, quoted, token_repo_tag, put_row, split_tags,
  shown, image_rows, parsing, names_of, rows_of,
}
use podman_bootc.Go.Errors
use podman_bootc.Go.Errors.{Error, Result, ok, err, panic, wrap}
use podman_bootc.World.Calls.{Answer, done, failed}

-- A result that is a value with `P`, or an error with `E`, and no panic.
abbrev pub Outcome : {A : Type 0} → (A → Type 0) → (Error → Type 0) → Result A → Type 0
Outcome P E (ok a) = P a
Outcome P E (err x) = E x
Outcome P E panic = ⊥

pub Outcome-bind :
    {A B : Type 0} (P : A → Type 0) (Q : B → Type 0) (D E : Error → Type 0) (r : Result A)
    (f : A → Result B)
    → Outcome P D r
    → ((x : Error) → D x → E x)
    → ((a : A) → P a → Outcome Q E (f a))
    → Outcome Q E (Errors.◌>>=◌ r f)
Outcome-bind P Q D E (ok a) f h d k = k a h
Outcome-bind P Q D E (err x) f h d k = d x h
Outcome-bind P Q D E panic f h d k = elim h [ ]

-- The row of an image for one of its names, a repository and a tag.
abbrev pub row_of : ImageSummary → Text × Text → ImageReporter
row_of e (r, t) = record { repository = r; tag = t; summary = e }

abbrev pub has_tag : Text × Text → Bool
has_tag (r, t) = not (text_eq t no_name)

-- The names that pass a test, in their order.
abbrev pub select : (Text × Text → Bool) → List (Text × Text) → List (Text × Text)
select f [] = []
select f (n ∷ names) = let rest = select f names in if f n then n ∷ rest else rest

-- The rows of an image with these names: the ones with a tag, each in a row and in their order; or
-- where there are none, the first name; or one row that says so, where the image has no name.
pub data IsShown (e : ImageSummary) : List (Text × Text) → List ImageReporter → Type 0 where
  nameless : IsShown e [] (row_of e (no_name, no_name) ∷ [])
  with_tags :
      (names : List (Text × Text)) (n : Text × Text) (rest : List (Text × Text))
      → select has_tag names ≡ n ∷ rest
      → IsShown e names (map (row_of e) (n ∷ rest))
  without_tags :
      (n : Text × Text) (names : List (Text × Text))
      → select has_tag (n ∷ names) ≡ []
      → IsShown e (n ∷ names) (row_of e n ∷ [])

module _ (parse : Text → Answer Reference) where
  -- The names that the texts stand for.
  pub data Names : List Text → List (Text × Text) → Type 0 where
    no_more : Names [] []
    name :
        {ref : Text} {refs : List Text} {n : Text × Text} {names : List (Text × Text)}
        → token_repo_tag parse ref ≡ ok n
        → Names refs names
        → Names (ref ∷ refs) (n ∷ names)

  -- The error of the first text that stands for no name.
  pub data NameError : List Text → Error → Type 0 where
    here :
        {ref : Text} {refs : List Text} {x : Error}
        → token_repo_tag parse ref ≡ err x
        → NameError (ref ∷ refs) (wrap (lit "parsing repository tag: " ++ quoted ref) x)
    later :
        {ref : Text} {refs : List Text} {n : Text × Text} {x : Error}
        → token_repo_tag parse ref ≡ ok n
        → NameError refs x
        → NameError (ref ∷ refs) x

  -- The rows that an image is to have.
  pub record Shown (e : ImageSummary) (rows : List ImageReporter) : Type 0 where
    pub names : List (Text × Text)
    pub its_names : Names e.repo_tags names
    pub its_rows : IsShown e names rows

-- The names of an image, in the two lists of the loop.
abbrev Split : ImageSummary → List (Text × Text) → List ImageReporter × List ImageReporter → Type 0
Split e names rows =
    (rows.0 ≡ map (row_of e) (select has_tag names))
    × (rows.1 ≡ map (row_of e) (select (λ n. not (has_tag n)) names))

put_row-Split :
    (e : ImageSummary) (n : Text × Text) (names : List (Text × Text))
    (rows : List ImageReporter × List ImageReporter)
    → Split e names rows
    → Split e (n ∷ names) (put_row (row_of e n) rows)
put_row-Split e (r, t) names rows (s, u) = by_tag (text_eq t no_name)
  where
    by_tag :
        (b : Bool)
        → let h = row_of e (r, t) in
          let put : List ImageReporter × List ImageReporter =
            if b then (rows.0, h ∷ rows.1) else (h ∷ rows.0, rows.1) in
          let ts = select has_tag names in
          let us = select (λ n. not (has_tag n)) names in
          (put.0 ≡ map (row_of e) (if not b then (r, t) ∷ ts else ts))
          × (put.1 ≡ map (row_of e) (if not (not b) then (r, t) ∷ us else us))
    by_tag true = (s, ap (λ (x : List ImageReporter). row_of e (r, t) ∷ x) u)
    by_tag false = (ap (λ (x : List ImageReporter). row_of e (r, t) ∷ x) s, u)

-- The rows with a tag are shown, where there are any.
tagged-IsShown :
    (e : ImageSummary) (names selected : List (Text × Text)) (h : ImageReporter)
    (rows : List ImageReporter)
    → select has_tag names ≡ selected
    → h ∷ rows ≡ map (row_of e) selected
    → IsShown e names (h ∷ rows)
tagged-IsShown e names [] h rows same k = absurd cc
tagged-IsShown e names (n ∷ rest) h rows same k = rw k (with_tags names n rest same)

none_tagged : (e : ImageSummary) (l : List (Text × Text)) → [] ≡ map (row_of e) l → l ≡ []
none_tagged e [] k = refl
none_tagged e (n ∷ l) k = absurd cc

-- The first row without a tag is the one of the first name, where no name has a tag.
first_untagged :
    (e : ImageSummary) (n : Text × Text) (names : List (Text × Text)) (us : List ImageReporter)
    → select has_tag (n ∷ names) ≡ []
    → us ≡ map (row_of e) (select (λ m. not (has_tag m)) (n ∷ names))
    → (rest : List ImageReporter) × (us ≡ row_of e n ∷ rest)
first_untagged e n names us = by_tag (has_tag n)
  where
    by_tag :
        (b : Bool)
        → (if b then n ∷ select has_tag names else select has_tag names) ≡ []
        → us
          ≡ map
              (row_of e)
              (let rest = select (λ m. not (has_tag m)) names in if not b then n ∷ rest else rest)
        → (rest : List ImageReporter) × (us ≡ row_of e n ∷ rest)
    by_tag true none k = absurd cc
    by_tag false none k = (_, k)

shown-IsShown :
    (e : ImageSummary) (n : Text × Text) (names : List (Text × Text))
    (rows : List ImageReporter × List ImageReporter)
    → Split e (n ∷ names) rows
    → Outcome (IsShown e (n ∷ names)) (λ x. ⊥) (shown rows)
unfolding shown
shown-IsShown e n names (t ∷ ts, us) (s, u) = tagged-IsShown e (n ∷ names) _ t ts refl s
shown-IsShown e n names ([], us) (s, u) =
    let none = none_tagged e (select has_tag (n ∷ names)) s in
    let (rest, first) = first_untagged e n names us none u in rw first (without_tags n names none)

module _ (parse : Text → Answer Reference) where
  -- A result that is an error or a value, as it says itself.
  abbrev Itself : {A : Type 0} → Result A → Type 0
  Itself r = Outcome (λ a. r ≡ ok a) (λ x. r ≡ err x) r

  names_of-Itself : (ref : Text) (r : Answer Reference) → Itself (names_of parse ref r)
  names_of-Itself ref (failed e) = refl
  names_of-Itself ref (done Reference.unnamed) = refl
  names_of-Itself ref (done (Reference.named n)) = refl
  names_of-Itself ref (done (Reference.tagged n t)) = refl

  token-Itself : (ref : Text) → Itself (token_repo_tag parse ref)
  unfolding token_repo_tag
  token-Itself ref = by_test (text_eq ref (lit "<none>:<none>"))
    where
      by_test :
          (b : Bool) → Itself (if b then ok (no_name, no_name) else names_of parse ref (parse ref))
      by_test true = refl
      by_test false = names_of-Itself ref (parse ref)

  parsing-Outcome :
      (ref : Text) (refs : List Text) (r : Result (Text × Text))
      → token_repo_tag parse ref ≡ r
      → Itself r
      → Outcome
          (λ n. token_repo_tag parse ref ≡ ok n)
          (NameError parse (ref ∷ refs))
          (parsing parse ref r)
  parsing-Outcome ref refs (ok n) same h = same
  parsing-Outcome ref refs (err x) same h = here same
  parsing-Outcome ref refs panic same h = h

  -- What the loop over the names gives.
  abbrev Parted : ImageSummary → List Text → List ImageReporter × List ImageReporter → Type 0
  Parted e refs rows = (names : List (Text × Text)) × Names parse refs names × Split e names rows

  split_tags-Outcome :
      (e : ImageSummary) (refs : List Text)
      → Outcome (Parted e refs) (NameError parse refs) (split_tags parse e refs)
  unfolding split_tags
  split_tags-Outcome e [] = ([], no_more, (refl, refl))
  split_tags-Outcome e (ref ∷ refs) =
      Outcome-bind _ _ _ _ (parsing parse ref (token_repo_tag parse ref)) _
        (parsing-Outcome ref refs (token_repo_tag parse ref) refl (token-Itself ref)) (λ x h. h)
        λ n its_name.
          Outcome-bind _ _ _ _ (split_tags parse e refs) _ (split_tags-Outcome e refs)
            (λ x h. later its_name h)
            λ rows (names, their_names, s).
              (n ∷ names, name its_name their_names, put_row-Split e n names rows s)

  shown-Shown :
      (e : ImageSummary) (ref : Text) (refs : List Text)
      (rows : List ImageReporter × List ImageReporter)
      → e.repo_tags ≡ ref ∷ refs
      → Parted e (ref ∷ refs) rows
      → Outcome (Shown parse e) (NameError parse (ref ∷ refs)) (shown rows)
  shown-Shown e ref refs rows same (_, name {n} {names} its_name their_names, s) =
      by_result (shown rows) (shown-IsShown e n names rows s)
    where
      by_result :
          (r : Result (List ImageReporter))
          → Outcome (IsShown e (n ∷ names)) (λ x. ⊥) r
          → Outcome (Shown parse e) (NameError parse (ref ∷ refs)) r
      by_result (ok out) h = record {
        names = n ∷ names;
        its_names = rw same (name its_name their_names);
        its_rows = h;
      }
      by_result (err x) h = elim h [ ]
      by_result panic h = h

  rows_of-Outcome :
      (e : ImageSummary) (refs : List Text)
      → e.repo_tags ≡ refs
      → Outcome (Shown parse e) (NameError parse refs) (rows_of parse e refs)
  rows_of-Outcome e [] same = record {
    names = [];
    its_names = rw same no_more;
    its_rows = nameless;
  }
  rows_of-Outcome e (ref ∷ refs) same =
      Outcome-bind _ _ _ _ (split_tags parse e (ref ∷ refs)) shown
        (split_tags-Outcome e (ref ∷ refs)) (λ x h. h)
        (λ rows parted. shown-Shown e ref refs rows same parted)

-- For every parser of references and every image, `sortImages` does not panic at the image, and: if it
-- gives rows for it, its names were all parsed, and the rows are those of the names with a tag, one for
-- each and in their order; or, where no name has a tag, one row for the first name; or, where the image
-- has no name, one row with `<none>` twice; if it gives an error, that is the error of the first name
-- that is not parsed.
pub image_rows-IsShown :
    (parse : Text → Answer Reference) (e : ImageSummary)
    → Outcome (Shown parse e) (NameError parse e.repo_tags) (image_rows parse e)
unfolding image_rows
image_rows-IsShown parse e = rows_of-Outcome parse e e.repo_tags refl
