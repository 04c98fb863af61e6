-- ===== src/Compat/Names.antt =====
-- The node names over the versions of PostgreSQL.
use Prim.Native.String.{String}
use pg_what_is_happening.Base.{
  ℕ, ◌≤◌, ◌<◌, ◌≡◌, ◌⊎◌, refl, inl, inr, Bool, true, false, Option, none, some, leb, arith,
  if◌then◌else◌,
}
use pg_what_is_happening.Tags.{
  NodeTag, node_to_name, custom_scan, gather, gather_merge, project_set, table_func_scan,
  named_tuplestore_scan, incremental_sort, memoize, node_tag_to_string, node_tag_to_string_inline,
}
use pg_what_is_happening.Compat.{
  Header, v9_4, v9_5, v9_6, v10, v11, v12, v13, v14, v15_18, v19, header_of, node_tag_to_string_of,
  name_with, node_tag_to_string_inline_of,
}

abbrev rank : Header → ℕ
rank v9_4 = 0
rank v9_5 = 1
rank v9_6 = 2
rank v10 = 3
rank v11 = 4
rank v12 = 5
rank v13 = 6
rank v14 = 7
rank v15_18 = 8
rank v19 = 9

header_of-15_18 : (n : ℕ) → 150000 ≤ n → n < 190000 → header_of n ≡ v15_18
unfolding header_of
header_of-15_18 n l h = ground arith

rank-header_of : (n m : ℕ) → n ≤ m → rank (header_of n) ≤ rank (header_of m)
unfolding header_of
rank-header_of n m h = ground arith

-- The first header that names a tag.
abbrev since : NodeTag → ℕ
since custom_scan = 1
since gather = 2
since gather_merge = 3
since project_set = 3
since table_func_scan = 3
since named_tuplestore_scan = 3
since incremental_sort = 6
since memoize = 7
since _ = 10

named :
    (v : Header) (tag : NodeTag)
    → node_tag_to_string_inline_of v tag
      ≡ (if leb (since tag) (rank v) then node_tag_to_string_inline_of v19 tag else none)
named v custom_scan = ground arith
named v _ = ground arith

name_with-else :
    (name : Option String) (b c : Bool) (inline : Option String)
    → ((b ≡ true) → c ≡ true)
    → (name_with name (if b then inline else none) ≡ "Unknown")
      ⊎ (name_with name (if b then inline else none) ≡ name_with name (if c then inline else none))
name_with-else name true c inline h = inr (rw (h refl) refl)
name_with-else (some s) false c inline h = inr refl
name_with-else none false c inline h = inl refl

-- A later version of PostgreSQL shows every node under the name that an earlier one shows it under,
-- unless that is "Unknown".
pub node_tag_to_string-later :
    (n m : ℕ) (tag : NodeTag)
    → n ≤ m
    → (node_tag_to_string_of n tag ≡ "Unknown")
      ⊎ (node_tag_to_string_of n tag ≡ node_tag_to_string_of m tag)
unfolding node_tag_to_string_of
node_tag_to_string-later n m tag h =
    rw (named (header_of n) tag, named (header_of m) tag)
      (name_with-else (node_to_name tag) (leb (since tag) (rank (header_of n)))
        (leb (since tag) (rank (header_of m))) (node_tag_to_string_inline_of v19 tag)
        (λ e. ground (arith, rank-header_of n m h)))

names_15_18 :
    (tag : NodeTag)
    → name_with (node_to_name tag) (node_tag_to_string_inline_of v15_18 tag)
      ≡ node_tag_to_string tag
unfolding node_to_name node_tag_to_string node_tag_to_string_inline
names_15_18 custom_scan = refl
names_15_18 _ = refl

-- The names of PostgreSQL 15 to 18 are those of the model.
pub node_tag_to_string_of-15_18 :
    (n : ℕ) (tag : NodeTag)
    → 150000 ≤ n
    → n < 190000
    → node_tag_to_string_of n tag ≡ node_tag_to_string tag
unfolding node_tag_to_string_of
node_tag_to_string_of-15_18 n tag l h = rw (header_of-15_18 n l h) (names_15_18 tag)
