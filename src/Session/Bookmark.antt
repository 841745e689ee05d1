-- ===== src/Session/Bookmark.antt =====
-- internal/session/bookmark.go: the named bookmarks of one pane.
pub mod Sorted
use mathlib.Core.List.{reverse}
use rdw.Common.{
  if◌then◌else◌, is_present, length, ltb_ℤ, ℤ, pos, Dict, lookup, insert, remove, Result, ok, err,
  Text, is_empty, ℕ, not, Option, List, [], ◌∷◌, map,
}

pub record Bookmark : Type 0 where
  pub name : Text
  pub line_index : ℤ
  pub created_at : ℕ

pub record BookmarkStore : Type 0 where
  pub marks : Dict Bookmark

pub data BookmarkError : Type 0 where
  empty_name negative_index not_found : BookmarkError

abbrev pub new_bookmark_store : BookmarkStore
new_bookmark_store = record { marks = [] }

-- `now` is what the clock returns.
unfoldable pub add : ℕ → Text → ℤ → BookmarkStore → BookmarkStore × Result BookmarkError Unit
add now n line s =
    if is_empty n
    then (s, err empty_name)
    else if ltb_ℤ line (pos 0)
    then (s, err negative_index)
    else (
      record s {
        marks = insert n (record { name = n; line_index = line; created_at = now }) s.marks;
      },
      ok tt,
    )

unfoldable pub remove_mark : Text → BookmarkStore → BookmarkStore × Result BookmarkError Unit
remove_mark n s =
    if not (is_present (lookup n s.marks))
    then (s, err not_found)
    else (record s { marks = remove n s.marks }, ok tt)

unfoldable pub get : Text → BookmarkStore → Option Bookmark
get n s = lookup n s.marks

unfoldable pub len : BookmarkStore → ℕ
len s = length s.marks

-- The inner loop of `All`: `out[i]` moves down past every larger one. The sorted part of the slice
-- is held from its end.
pub settle : Bookmark → List Bookmark → List Bookmark
settle x [] = x ∷ []
settle x (y ∷ ys) = if ltb_ℤ x.line_index y.line_index then y ∷ settle x ys else x ∷ y ∷ ys

pub sort_from : List Bookmark → List Bookmark → List Bookmark
sort_from sorted [] = sorted
sort_from sorted (x ∷ xs) = sort_from (settle x sorted) xs

pub all : BookmarkStore → List Bookmark
unfolding sort_from settle
all s = reverse (sort_from [] (map (λ e. e.1) s.marks))
