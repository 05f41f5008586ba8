-- ===== src/Inventory/Report/Drafts.antt =====
-- The drafts that the files of the Codex home leave: one for each session id, none of them present in
-- the app-server.
use mathlib.Core.Path.{subst}
use chaop.Base.{
  ◌≡◌, refl, ◌∙◌, arith, Bool, true, false, ◌||◌, String, str_eq, str_eq_iff, Option, none, some,
  List, [], ◌∷◌, ℕ, Result, ok, err, Option-cases, inl, inr, has_key, find_key, distinct_keys, take,
}
use chaop.Inventory.Sessions.{
  SessionDraft, Readers, CodexHome, Read, and_read, new_draft, update_draft, rollout_scan_limit,
  metadata_scan_limit, with_index, add_index_lines, read_session_index,
}
use chaop.Inventory.Rollouts.{
  RolloutMetadata, with_rollout, add_rollout, add_rollout_lines, rollout_metadata_lines,
  no_metadata, read_rollout_metadata, read_rollout_files, read_rollouts,
}

abbrev pub draft_id : SessionDraft → String
draft_id d = d.session_id

abbrev pub flag : Option SessionDraft → Bool
flag none = false
flag (some d) = d.app_server_present

-- whether the session is marked as present in the app-server
abbrev pub is_present : String → List SessionDraft → Bool
is_present k ds = flag (find_key draft_id k ds)

module _ (id : String) (change : SessionDraft → SessionDraft)
    (keeps : (d : SessionDraft) → (change d).session_id ≡ d.session_id) where
  pub has_key-update_draft :
      (k : String) (ds : List SessionDraft)
      → has_key draft_id k (update_draft id change ds) ≡ (str_eq id k || has_key draft_id k ds)
  unfolding has_key update_draft
  has_key-update_draft k [] = ground (arith, keeps (new_draft id))
  has_key-update_draft k (d ∷ ds) = ground (
    arith,
    keeps d,
    has_key-update_draft k ds,
    str_eq_iff d.session_id id,
    str_eq_iff d.session_id k,
    str_eq_iff id k,
  )

  pub distinct-update_draft :
      (ds : List SessionDraft)
      → distinct_keys draft_id ds ≡ true
      → distinct_keys draft_id (update_draft id change ds) ≡ true
  unfolding distinct_keys has_key update_draft
  distinct-update_draft [] h = refl
  distinct-update_draft (d ∷ ds) h = ground (
    arith,
    keeps d,
    distinct-update_draft ds,
    has_key-update_draft d.session_id ds,
    str_eq_iff d.session_id id,
    str_eq_iff id d.session_id,
  )

  pub is_present_unchanged :
      ((d : SessionDraft) → (change d).app_server_present ≡ d.app_server_present)
      → (k : String) (ds : List SessionDraft)
      → is_present k (update_draft id change ds) ≡ is_present k ds
  unfolding find_key update_draft
  is_present_unchanged same k [] = ground (arith, keeps (new_draft id), same (new_draft id))
  is_present_unchanged same k (d ∷ ds) =
      ground (arith, keeps d, same d, is_present_unchanged same k ds)

  pub is_present_set :
      ((d : SessionDraft) → (change d).app_server_present ≡ true)
      → (k : String) (ds : List SessionDraft)
      → is_present k (update_draft id change ds) ≡ (str_eq id k || is_present k ds)
  unfolding find_key update_draft
  is_present_set sets k [] = ground (arith, keeps (new_draft id), sets (new_draft id))
  is_present_set sets k (d ∷ ds) = ground (
    arith,
    keeps d,
    sets d,
    is_present_set sets k ds,
    str_eq_iff d.session_id id,
    str_eq_iff d.session_id k,
    str_eq_iff id k,
  )

pub record Fresh (ds : List SessionDraft) : Type 0 where
  pub distinct : distinct_keys draft_id ds ≡ true
  pub absent : (k : String) → is_present k ds ≡ false

update_draft-Fresh :
    (id : String) (change : SessionDraft → SessionDraft)
    → ((d : SessionDraft) → (change d).session_id ≡ d.session_id)
    → ((d : SessionDraft) → (change d).app_server_present ≡ d.app_server_present)
    → (ds : List SessionDraft) → Fresh ds
    → Fresh (update_draft id change ds)
update_draft-Fresh id change keeps same ds h = record {
  distinct = distinct-update_draft id change keeps ds h.distinct;
  absent = λ k. is_present_unchanged id change keeps same k ds ∙ h.absent k;
}

add_index_lines-Fresh :
    (readers : Readers) (lines : List String) (ds : List SessionDraft)
    → Fresh ds
    → Fresh (add_index_lines readers lines ds)
unfolding add_index_lines
add_index_lines-Fresh readers [] ds h = h
add_index_lines-Fresh readers (line ∷ lines) ds h = elim (Option-cases (readers.index_line line)) [
  | inl eq ↦ rw (eq) (add_index_lines-Fresh readers lines ds h)
  | inr (entry, eq) ↦ rw (eq) (
      add_index_lines-Fresh readers lines _
        (update_draft-Fresh entry.id (with_index entry) (λ d. refl) (λ d. refl) ds h))
]

add_rollout-Fresh :
    (id : Option String) (m : RolloutMetadata) (ds : List SessionDraft)
    → Fresh ds
    → Fresh (add_rollout id m ds)
add_rollout-Fresh none m ds h = h
add_rollout-Fresh (some id) m ds h =
    update_draft-Fresh id (with_rollout m) (λ d. refl) (λ d. refl) ds h

-- What a step that succeeds comes from.
pub and_read_cases {ℓ κ} :
    {A : Type ℓ} {B : Type κ} (r : Read A) (f : A → Read B) (b : B)
    → and_read r f ≡ ok b
    → (a : A) × (r ≡ ok a) × (f a ≡ ok b)
and_read_cases (ok a) f b h = (a, refl, h)
and_read_cases (err e) f b h = absurd (cc (h))

read_rollout_files-Fresh :
    (readers : Readers) (files : List (Result (List (Result String String)) String))
    (ds es : List SessionDraft)
    → Fresh ds
    → read_rollout_files readers files ds ≡ ok es
    → Fresh es
unfolding read_rollout_files read_rollout_metadata
read_rollout_files-Fresh readers [] ds es h eq = subst Fresh (cc (eq)) h
read_rollout_files-Fresh readers (file ∷ files) ds es h eq =
    let (mid, left, right) =
      and_read_cases (read_rollout_metadata readers file ds) (read_rollout_files readers files) es
        eq in
    let (lines, opened, parsed) =
      and_read_cases file
        (λ lines.
          and_read (add_rollout_lines readers (take rollout_metadata_lines lines) no_metadata)
            (λ m. ok (add_rollout m.session_id m ds)))
        mid left in
    let (m, found, added) =
      and_read_cases (add_rollout_lines readers (take rollout_metadata_lines lines) no_metadata)
        (λ m. ok (add_rollout m.session_id m ds)) mid parsed in
    read_rollout_files-Fresh readers files mid es
      (subst Fresh (cc (added)) (add_rollout-Fresh m.session_id m ds h)) right

-- A file that need not exist.
optional_step {ℓ κ} :
    {A : Type ℓ} {F : Type κ} (P : A → Type ℓ) (file : Option F) (first last : A) (f : F → Read A)
    → P first
    → ((x : F) (a : A) → f x ≡ ok a → P a)
    → elim file [ none ↦ ok first | some x ↦ f x ] ≡ ok last
    → P last
optional_step P none first last f h step eq = subst P (cc (eq)) h
optional_step P (some x) first last f h step eq = step x last eq

none-Fresh : Fresh []
unfolding distinct_keys find_key
none-Fresh = record { distinct = refl; absent = λ k. refl }

index-Fresh :
    (readers : Readers) (home : CodexHome) (n : ℕ) (indexed : List SessionDraft)
    → read_session_index readers home [] n ≡ ok indexed
    → Fresh indexed
unfolding read_session_index
index-Fresh readers home n indexed h =
    optional_step Fresh home.session_index [] indexed _ none-Fresh
      (λ read ds eq.
        let (lines, found, added) =
          and_read_cases (read (metadata_scan_limit n))
            (λ lines. ok (add_index_lines readers lines [])) ds eq in
        subst Fresh (cc (added)) (add_index_lines-Fresh readers lines [] none-Fresh))
      h

pub files-Fresh :
    (readers : Readers) (home : CodexHome) (n : ℕ) (indexed drafts : List SessionDraft)
    → read_session_index readers home [] n ≡ ok indexed
    → read_rollouts readers home indexed n ≡ ok drafts
    → Fresh drafts
unfolding read_rollouts
files-Fresh readers home n indexed drafts h k =
    optional_step Fresh home.rollouts indexed drafts _ (index-Fresh readers home n indexed h)
      (λ paths ds eq.
        let (files, found, read) =
          and_read_cases (paths (rollout_scan_limit n))
            (λ files. read_rollout_files readers files indexed) ds eq in
        read_rollout_files-Fresh readers files indexed ds (index-Fresh readers home n indexed h)
          read)
      k
