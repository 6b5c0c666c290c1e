-- ===== src/Api/BgpCommunities.antt =====
-- pkg/api/bgp_communities.go: the tree of labelled communities. A value of the map is a label or
-- a map; the entries are declared with the trees.
pub mod Labels
use alice_lg.Common.{
  Bool, true, false, Option, none, some, List, [], ◌∷◌, if◌then◌else◌, ◌>>=◌, list_beq, nat_eq,
}
use alice_lg.Common.Texts.{Text, codes, split, trim_space}

mutual
  pub data Tree : Type 0 where
    label : Text → Tree
    table : Entries → Tree

  pub data Entries : Type 0 where
    empty : Entries
    entry : Text → Tree → Entries → Entries

-- clookup[key]
unfoldable pub find_entry : Text → Entries → Option Tree
find_entry key empty = none
find_entry key (entry k t m) = if list_beq k key then some t else find_entry key m

-- clookup[key] = value
unfoldable pub put_entry : Text → Tree → Entries → Entries
put_entry key t empty = entry key t empty
put_entry key t (entry k u m) =
    let rest = put_entry key t m in if list_beq k key then entry key t m else entry k u rest

-- The result of a lookup: a label, or one of the two errors with the text it quotes
pub data Looked : Type 0 where
  found : Text → Looked
  not_found_at not_found : Text → Looked

-- The label at the end of a lookup
unfoldable pub label_of : Text → Tree → Looked
label_of community (label text) = found text
label_of community (table m) = not_found community

-- The entry of a key, or else of the wildcard
unfoldable pub find_or_wildcard : Text → Entries → Option Tree
unfolding find_entry
find_or_wildcard key m = elim (find_entry key m) [
  | none ↦ find_entry (codes "*") m
  | some t ↦ some t
]

-- The loop of `BGPCommunityMap.Lookup` over the rest of the path
unfoldable pub lookup_from : Text → List Text → Tree → Looked
unfolding label_of find_or_wildcard
lookup_from community [] t = label_of community t
lookup_from community (key ∷ path) (label text) = not_found_at (trim_space key)
lookup_from community (key ∷ path) (table m) = elim (find_or_wildcard (trim_space key) m) [
  | none ↦ not_found community
  | some t ↦ lookup_from community path t
]

-- BGPCommunityMap.Lookup
unfoldable pub lookup : Tree → Text → Looked
unfolding lookup_from
lookup c community = lookup_from community (split b':' community) c

-- The entry of a key, or a new map where the key does not exist
unfoldable pub entry_or_new : Text → Entries → Tree
unfolding find_entry
entry_or_new key m = elim (find_entry key m) [ none ↦ table empty | some t ↦ t ]

-- The loop of `BGPCommunityMap.Set` and its assignment, at a key and those after it. All but the
-- last key are trimmed. A label on the way fails the type assertion, which is none.
unfoldable pub set_from : Text → List Text → Text → Tree → Option Tree
unfolding put_entry entry_or_new
set_from key [] text (label _) = none
set_from key [] text (table m) = some (table (put_entry key (label text) m))
set_from key (next ∷ path) text (label _) = none
set_from key (next ∷ path) text (table m) = do
  t ← set_from next path text (entry_or_new (trim_space key) m)
  some (table (put_entry (trim_space key) t m))

-- BGPCommunityMap.Set
unfoldable pub set_label : Tree → Text → Text → Option Tree
unfolding set_from
set_label c community text = elim (split b':' community) [
  | [] ↦ none
  | key ∷ path ↦ set_from key path text c
]
