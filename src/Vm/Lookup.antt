-- ===== src/Vm/Lookup.antt =====
-- pkg/vm/vm.go: `GetVMCachePath` and its description.
use podman_bootc.Base.{
  true, false, ◌≡◌, refl, sym, ap, ◌∙◌, ◌⊎◌, inl, inr, ==_iff, List, [], ◌∷◌, ◌++◌, Text, lit,
  length, has_prefix_sound, has_prefix-append, is_empty, Member, here, there, Bool-cases,
  if◌then◌else◌, arith,
}
use podman_bootc.Go.Errors.{ok, err, new_error}
use podman_bootc.Go.Path.{join}
use podman_bootc.User.{User, cache_dir}
use podman_bootc.Vm.Cache.{is_match, find_full_id, get_vm_cache_path}
use podman_bootc.World.Calls.{System, Entry, Trace, done}
use podman_bootc.World.Exec.{pure, fail, ◌>>=◌, read_dir}

-- An entry is the directory of a VM whose id begins with `id`.
pub record IsVm (id : Text) (e : Entry) : Type 0 where
  pub directory : e.is_dir ≡ true
  pub long : length e.name ≡ 64
  pub rest : Text
  pub begins : e.name ≡ id ++ rest

is_match_sound : (id : Text) (e : Entry) → is_match id e ≡ true → IsVm id e
unfolding is_match
is_match_sound id e h =
    let (r, begins') = has_prefix_sound e.name id (ground arith) in
    record { directory = ground arith; long = ground arith; rest = r; begins = begins' }

is_match_complete : (id : Text) (e : Entry) → IsVm id e → is_match id e ≡ true
unfolding is_match
is_match_complete id e h =
    rw (h.directory, (==_iff (length e.name) 64).1 h.long, h.begins, has_prefix-append id h.rest)
      refl

no_match :
    (id : Text) (f : Entry) (files : List Entry)
    → is_match id f ≡ false
    → ((e : Entry) → Member e files → is_match id e ≡ false)
    → (e : Entry) → Member e (f ∷ files)
    → is_match id e ≡ false
no_match id f files k none_of e here = k
no_match id f files k none_of e (there m) = none_of e m

-- The last match, if there is one.
find_full_id-cases :
    (id : Text) (files : List Entry) (full : Text)
    → ((find_full_id id files full ≡ full) × ((e : Entry) → Member e files → is_match id e ≡ false))
      ⊎ ((e : Entry) × Member e files
          × (is_match id e ≡ true)
          × (find_full_id id files full ≡ e.name))
unfolding find_full_id
find_full_id-cases id [] full = inl (refl, λ e m. elim m [ ])
find_full_id-cases id (f ∷ files) full =
    let full' = if is_match id f then f.name else full in
    elim (find_full_id-cases id files full') [
      | inr (e, m, k, same) ↦ inr (e, there m, k, same)
      | inl (same, none_of) ↦ elim (Bool-cases (is_match id f)) [
        | inl k ↦ inr (f, here, k, same ∙ rw k refl)
        | inr k ↦ inl (same ∙ rw k refl, no_match id f files k none_of)
      ]
    ]

no-IsVm : (id : Text) (e : Entry) → is_match id e ≡ false → ¬ IsVm id e
no-IsVm id e h vm = absurd (ground (arith, is_match_complete id e vm))

not_empty : (s : Text) → length s ≡ 64 → is_empty s ≡ false
not_empty [] h = absurd (omega arith)
not_empty (c ∷ s) h = refl

module _ (sys : System) (id : Text) (u : User) (t : Trace) (files : List Entry) where
  found_path :
      sys.read_dir t (cache_dir u) ≡ done files
      → (full : Text) → find_full_id id files [] ≡ full
      → is_empty full ≡ false
      → (get_vm_cache_path sys id u t).0 ≡ ok (full, join (cache_dir u ∷ full ∷ []))
  unfolding get_vm_cache_path read_dir pure fail ◌>>=◌
  found_path listed full e some_text = rw (listed, e, some_text) refl

  no_path :
      sys.read_dir t (cache_dir u) ≡ done files
      → find_full_id id files [] ≡ []
      → (get_vm_cache_path sys id u t).0
        ≡ err (new_error (lit "local installation '" ++ (id ++ lit "' does not exists")))
  unfolding get_vm_cache_path read_dir pure fail ◌>>=◌
  no_path listed e = rw (listed, e) refl

  -- For every system, prefix, user, history and list of entries: where the cache directory is listed
  -- with these entries, `GetVMCachePath` returns the name of a listed directory of 64 bytes that begins
  -- with the prefix, and its path; or no entry is such a directory, and it returns an error that says
  -- so.
  pub get_vm_cache_path-finds :
      sys.read_dir t (cache_dir u) ≡ done files
      → ((e : Entry) × Member e files
          × IsVm id e
          × ((get_vm_cache_path sys id u t).0 ≡ ok (e.name, join (cache_dir u ∷ e.name ∷ []))))
        ⊎ (((e : Entry) → Member e files → ¬ IsVm id e)
            × ((get_vm_cache_path sys id u t).0
                ≡ err (new_error (lit "local installation '" ++ (id ++ lit "' does not exists")))))
  get_vm_cache_path-finds listed = elim (find_full_id-cases id files []) [
    | inr (e, m, k, same) ↦
        let vm = is_match_sound id e k in
        inl (e, m, vm, found_path listed e.name same (not_empty e.name vm.long))
    | inl (same, none_of) ↦ inr ((λ e m vm. no-IsVm id e (none_of e m) vm), no_path listed same)
  ]

append_right : (s : Text) → s ++ [] ≡ s
append_right [] = refl
append_right (c ∷ s) = ap (◌∷◌ c) (append_right s)

append_nil : (s r : Text) → length (s ++ r) ≡ length s → s ++ r ≡ s
append_nil [] [] h = refl
append_nil [] (c ∷ r) h = absurd (omega arith)
append_nil (c ∷ s) r h = ap (◌∷◌ c) (append_nil s r (omega arith))

-- A directory whose name begins with the full id of a VM is the directory of that VM.
IsVm-full : (id : Text) (e : Entry) → length id ≡ 64 → IsVm id e → e.name ≡ id
IsVm-full id e h vm =
    vm.begins ∙ append_nil id vm.rest (ap length (sym vm.begins) ∙ (vm.long ∙ sym h))

-- For every system, entry, user, history and list of entries: where the cache directory is listed with
-- these entries, and the entry is one of them, a directory with a name of 64 bytes, `GetVMCachePath`
-- of this name returns it and its path, whatever else is listed.
pub get_vm_cache_path-full_id :
    (sys : System) (e : Entry) (u : User) (t : Trace) (files : List Entry)
    → sys.read_dir t (cache_dir u) ≡ done files
    → Member e files
    → e.is_dir ≡ true
    → length e.name ≡ 64
    → (get_vm_cache_path sys e.name u t).0 ≡ ok (e.name, join (cache_dir u ∷ e.name ∷ []))
get_vm_cache_path-full_id sys e u t files listed m d h =
    elim (get_vm_cache_path-finds sys e.name u t files listed) [
      | inl (f, _, vm, found) ↦
          found ∙ ap (λ n. ok (n, join (cache_dir u ∷ n ∷ []))) (IsVm-full e.name f h vm)
      | inr (none_of, _) ↦ absurd (
          none_of e m
            (record { directory = d; long = h; rest = []; begins = sym (append_right e.name) }))
    ]

find_full_id-append :
    (id : Text) (xs ys : List Entry) (full : Text)
    → find_full_id id (xs ++ ys) full ≡ find_full_id id ys (find_full_id id xs full)
unfolding find_full_id
find_full_id-append id [] ys full = refl
find_full_id-append id (x ∷ xs) ys full = find_full_id-append id xs ys _

find_full_id-unmatched :
    (id : Text) (files : List Entry) (full : Text)
    → ((f : Entry) → Member f files → ¬ IsVm id f)
    → find_full_id id files full ≡ full
find_full_id-unmatched id files full none_of = elim (find_full_id-cases id files full) [
  | inl (same, _) ↦ same
  | inr (f, m, k, _) ↦ absurd (none_of f m (is_match_sound id f k))
]

found_last :
    (id : Text) (e : Entry) (after : List Entry) (full : Text)
    → IsVm id e
    → ((f : Entry) → Member f after → ¬ IsVm id f)
    → find_full_id id (e ∷ after) full ≡ e.name
unfolding find_full_id
found_last id e after full vm none_of =
    find_full_id-unmatched id after _ none_of ∙ rw (is_match_complete id e vm) refl

-- For every system, prefix, user, history and listing: if an entry is a directory of 64 bytes that
-- begins with the prefix, and none of the entries listed after it is one, `GetVMCachePath` returns it,
-- however many entries before it are such directories too.
pub get_vm_cache_path-last :
    (sys : System) (id : Text) (u : User) (t : Trace) (before : List Entry) (e : Entry)
    (after : List Entry)
    → sys.read_dir t (cache_dir u) ≡ done (before ++ (e ∷ after))
    → IsVm id e
    → ((f : Entry) → Member f after → ¬ IsVm id f)
    → (get_vm_cache_path sys id u t).0 ≡ ok (e.name, join (cache_dir u ∷ e.name ∷ []))
get_vm_cache_path-last sys id u t before e after listed vm none_of =
    found_path sys id u t (before ++ (e ∷ after)) listed e.name
      (find_full_id-append id before (e ∷ after) [] ∙ found_last id e after _ vm none_of)
      (not_empty e.name vm.long)
