-- ===== src/Api/BgpCommunities/Labels.antt =====
-- A label that is set is found again.
use alice_lg.Common.{
  ◌≡◌, refl, ap, sym, ◌∙◌, Bool, true, false, none, some, List, [], ◌∷◌, list_beq_iff, nat_eq,
  arith, Option-cases, inl, inr,
}
use alice_lg.Common.Texts.{Text, split, trim_space}
use alice_lg.Api.BgpCommunities.{
  Tree, Entries, label, table, empty, entry, find_entry, put_entry, found, lookup_from,
  find_or_wildcard, label_of, lookup, set_from, entry_or_new, set_label,
}

find_entry-put_entry :
    (key : Text) (t : Tree) (m : Entries) → find_entry key (put_entry key t m) ≡ some t
unfolding find_entry put_entry
find_entry-put_entry key t empty = ground (arith, list_beq_iff key key)
find_entry-put_entry key t (entry k u m) =
    ground (arith, list_beq_iff key key, list_beq_iff k key, find_entry-put_entry key t m)

-- A label stands on the way of a path, before its end.
unfoldable pub is_blocked : Text → List Text → Tree → Bool
is_blocked key path (label _) = true
is_blocked key [] (table m) = false
is_blocked key (next ∷ path) (table m) = elim (find_entry (trim_space key) m) [
  | none ↦ false
  | some t ↦ is_blocked next path t
]

-- The last key of a path
unfoldable pub last_key : Text → List Text → Text
last_key key [] = key
last_key key (next ∷ path) = last_key next path

lookup_from-put :
    (community key : Text) (path : List Text) (t : Tree) (m : Entries)
    → lookup_from community (key ∷ path) (table (put_entry (trim_space key) t m))
      ≡ lookup_from community path t
unfolding lookup_from find_or_wildcard
lookup_from-put community key path t m =
    rw (lookup_from, find_or_wildcard, find_entry-put_entry (trim_space key) t m) refl

is_blocked-new : (key : Text) (path : List Text) → is_blocked key path (table empty) ≡ false
unfolding is_blocked find_entry
is_blocked-new key [] = refl
is_blocked-new key (next ∷ path) = refl

not_blocked :
    (key next : Text) (path : List Text) (m : Entries)
    → is_blocked key (next ∷ path) (table m) ≡ false
    → is_blocked next path (entry_or_new (trim_space key) m) ≡ false
unfolding is_blocked entry_or_new
not_blocked key next path m free = elim (Option-cases (find_entry (trim_space key) m)) [
  | inl missing ↦ rw (entry_or_new, missing) (is_blocked-new next path)
  | inr (t, at) ↦ rw (entry_or_new, at) (ground (arith, free, at))
]

lookup_from-last :
    (community text key : Text) (m : Entries)
    → trim_space key ≡ key
    → lookup_from community (key ∷ []) (table (put_entry key (label text) m)) ≡ found text
unfolding lookup_from label_of
lookup_from-last community text key m trimmed =
    ap (λ k. lookup_from community (key ∷ []) (table (put_entry k (label text) m))) (sym trimmed)
    ∙ lookup_from-put community key [] (label text) m

lookup_from-set_from :
    (community text key : Text) (path : List Text) (t : Tree)
    → is_blocked key path t ≡ false
    → trim_space (last_key key path) ≡ last_key key path
    → (u : Tree) × (set_from key path text t ≡ some u)
      × (lookup_from community (key ∷ path) u ≡ found text)
unfolding set_from is_blocked last_key
lookup_from-set_from community text key path (label l) free trimmed = ground (arith, free)
lookup_from-set_from community text key [] (table m) free trimmed =
    (table (put_entry key (label text) m), refl, lookup_from-last community text key m trimmed)
lookup_from-set_from community text key (next ∷ path) (table m) free trimmed =
    let (u, written, at) =
      lookup_from-set_from community text next path (entry_or_new (trim_space key) m)
        (not_blocked key next path m free) trimmed in
    (
      table (put_entry (trim_space key) u m),
      rw written refl,
      lookup_from-put community key (next ∷ path) u m ∙ at,
    )

-- A community whose path meets no label before its end, and whose last key has no space around
-- it, can be set, and the lookup of the community then finds the label.
pub lookup-set_label :
    (c : Tree) (community text key : Text) (path : List Text)
    → split b':' community ≡ key ∷ path
    → is_blocked key path c ≡ false
    → trim_space (last_key key path) ≡ last_key key path
    → (d : Tree) × (set_label c community text ≡ some d) × (lookup d community ≡ found text)
unfolding set_label lookup
lookup-set_label c community text key path e free trimmed =
    let (d, written, at) = lookup_from-set_from community text key path c free trimmed in
    (d, rw (set_label, e) written, rw (lookup, e) at)
