-- ===== src/Gateway/Params.antt =====
-- api/pkg/common/common.go: the parameters of a request to list.
use multi_cloud.Common.{
  not, Text, codes, is_empty, split, List, [], ◌∷◌, Option, none, some, if◌then◌else◌,
}
use multi_cloud.Common.Int.{ℤ, pos, int32, gt}
use multi_cloud.Common.Strconv.{atoi}
use multi_cloud.Policy.Check.{TextMap}

-- A request's query parameters: the empty text for a missing one.
abbrev pub Query : Type 0
Query = Text → Text

-- The limit, which is never raised above the default.
unfoldable pub limit_of : Option ℤ → Option ℤ
unfolding int32 gt
limit_of none = none
limit_of (some v) = some (if gt (pos 1000) (int32 v) then int32 v else pos 1000)

unfoldable pub limit_param : Text → Option ℤ
unfolding atoi limit_of
limit_param s = if is_empty s then some (pos 1000) else limit_of (atoi s)

unfoldable pub offset_param : Text → Option ℤ
unfolding atoi int32
offset_param s =
    if is_empty s then some (pos 0) else elim (atoi s) [ none ↦ none | some v ↦ some (int32 v) ]

-- The error of the limit comes first.
unfoldable pub page_of : Option ℤ → Option ℤ → Option (ℤ × ℤ)
page_of none offset = none
page_of (some limit) none = none
page_of (some limit) (some offset) = some (limit, offset)

-- `GetPaginationParam`, `none` for its error: the limit and the offset.
unfoldable pub get_pagination_param : Query → Option (ℤ × ℤ)
unfolding limit_param offset_param page_of
get_pagination_param query =
    page_of (limit_param (query (codes "limit"))) (offset_param (query (codes "offset")))

-- One entry of the sort parameter, split at its colons, and then the others.
unfoldable pub sort_entry :
    List Text → Option (List Text × List Text) → Option (List Text × List Text)
sort_entry (key ∷ []) rest = elim rest [
  | none ↦ none
  | some (keys, dirs) ↦ some (key ∷ keys, codes "asc" ∷ dirs)
]
sort_entry (key ∷ dir ∷ []) rest = elim rest [
  | none ↦ none
  | some (keys, dirs) ↦ some (key ∷ keys, dir ∷ dirs)
]
sort_entry _ rest = none

-- The loop over the entries; `Split` gives one part at least.
unfoldable pub sort_entries : List Text → Option (List Text × List Text)
unfolding split sort_entry
sort_entries [] = some ([], [])
sort_entries (s ∷ ss) = sort_entry (split b':' s) (sort_entries ss)

-- `GetSortParam`, `none` for its error: a parameter that is given is not read. An empty text has no
-- space to trim.
unfoldable pub sort_of : Text → Option (List Text × List Text)
unfolding sort_entries split
sort_of s = if not (is_empty s) then some ([], []) else sort_entries (split b',' s)

unfoldable pub get_sort_param : Query → Option (List Text × List Text)
unfolding sort_of
get_sort_param query = sort_of (query (codes "sort"))

-- `GetFilter`, over the options; no two are the same.
unfoldable pub get_filter : Query → List Text → TextMap Text
get_filter query [] = []
get_filter query (opt ∷ opts) =
    let rest = get_filter query opts in
    if is_empty (query opt) then rest else (opt, query opt) ∷ rest
