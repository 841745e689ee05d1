-- ===== src/Server/Marks.antt =====
-- The bookmark and highlight routes of internal/server/routes.go.
use rdw.Common.{ℤ, insert, Result, ok, err, Text, codes, ℕ, Option, none, some, List}
use rdw.Session.TargetId.{TargetId, parse_target_id}
use rdw.Session.Bookmark.{BookmarkStore, BookmarkError, add, remove_mark, all}
use rdw.Router.{bookmarks_of}
use rdw.Highlight.{Rule, ProfileStore, HighlightError, add_profile, remove_profile, all_profiles}
use rdw.Server.{
  Server, Env, said, by_bookmark, by_highlight, bookmarks_body, profiles_body, Answer, api_error,
  write_header, json_response, with_body, with_target,
}
use rdw.Server.Control.{with_bookmarks}

abbrev pub listed_marks : Option BookmarkStore → Server → Answer
listed_marks none s = api_error 404 (said (codes "pane not found")) s
listed_marks (some bs) s = json_response (bookmarks_body (all bs)) s

unfoldable pub handle_bookmark_list : Text → Server → Answer
handle_bookmark_list text =
    with_target (parse_target_id text) (λ id s. listed_marks (bookmarks_of id s.router) s)

-- A call on a bookmark store, which is the pane's own.
abbrev pub marked : TargetId → ℕ → BookmarkStore × Result BookmarkError Unit → Server → Answer
marked id refused (bs, err e) s =
    api_error refused (by_bookmark e) (with_bookmarks (insert id bs) s)
marked id refused (bs, ok tt) s = write_header 204 (with_bookmarks (insert id bs) s)

abbrev pub add_mark_to : ℕ → TargetId → Text → ℤ → Option BookmarkStore → Server → Answer
add_mark_to now id n line none s = api_error 404 (said (codes "pane not found")) s
add_mark_to now id n line (some bs) s = marked id 400 (add now n line bs) s

-- The body is the line index.
unfoldable pub handle_bookmark_add : Env → Text → Text → Option ℤ → Server → Answer
handle_bookmark_add env text n body =
    with_target (parse_target_id text)
      (λ id. with_body body (λ line s. add_mark_to env.now id n line (bookmarks_of id s.router) s))

abbrev pub drop_mark_of : TargetId → Text → Option BookmarkStore → Server → Answer
drop_mark_of id n none s = api_error 404 (said (codes "pane not found")) s
drop_mark_of id n (some bs) s = marked id 404 (remove_mark n bs) s

unfoldable pub handle_bookmark_delete : Text → Text → Server → Answer
handle_bookmark_delete text n =
    with_target (parse_target_id text) (λ id s. drop_mark_of id n (bookmarks_of id s.router) s)

unfoldable pub handle_highlight_list : Server → Answer
handle_highlight_list s = json_response (profiles_body (all_profiles s.highlights)) s

abbrev pub highlighted : ℕ → ProfileStore × Result HighlightError Unit → Server → Answer
highlighted refused (hs, err e) s =
    api_error refused (by_highlight e) (record s { highlights = hs })
highlighted refused (hs, ok tt) s = write_header 204 (record s { highlights = hs })

-- The body is the list of rules.
unfoldable pub handle_highlight_add : Env → Text → Option (List Rule) → Server → Answer
handle_highlight_add env n body = with_body body (λ rules s.
    highlighted 400 (add_profile env.compiles (record { name = n; rules = rules }) s.highlights) s)

unfoldable pub handle_highlight_delete : Text → Server → Answer
handle_highlight_delete n s = highlighted 404 (remove_profile n s.highlights) s
