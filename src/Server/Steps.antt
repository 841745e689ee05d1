-- ===== src/Server/Steps.antt =====
-- Every step of a server keeps a property that the calls of `Runs.KeptCalls` keep.
use rdw.Common.{
  ℤ, lookup, Result, ok, err, Text, is_empty, ℕ, ◌≡◌, refl, Bool, true, false, Option, none, some,
  List, [], ◌∷◌,
}
use rdw.Session.TargetId.{TargetId, IdError, parse_target_id}
use rdw.Session.Manager.{Manager, SessionError, focus_window}
use rdw.Session.Bookmark.{BookmarkStore, BookmarkError}
use rdw.Router as Routes
use rdw.Router.{RouterError}
use rdw.Server.{Server, Env}
use rdw.Server.Control.{route_line}
use rdw.Server.Windows.{set_manager}
use rdw.Server.Layouts.{}
use rdw.Server.Tokens.{TokenBody, revoke_everywhere}
use rdw.Server.Marks.{
  listed_marks, handle_bookmark_list, marked, add_mark_to, handle_bookmark_add, drop_mark_of,
  handle_bookmark_delete,
}
use rdw.Server.Groups.{
  GroupAction, hide, show, focus, kill, act_on, act_on_group, handle_group_action,
}
use rdw.Server.CycleRoutes.{focused, cycle_event}
use rdw.Server.Status.{}
use rdw.Server.Guards.{}
use rdw.Server.Unix.{
  UnixCommand, ping, stop, token_create, token_revoke, stream_line, unknown, unix_create,
  unix_revoked, unix_posted, unix_stream, unix_target, handle_unix_command,
}
use rdw.Server.Requests.{}
use rdw.Server.Keeps.{
  CoreProperty, Holds, with_body-keeps, with_target-keeps, send_all-keeps,
  broadcast_layout_update-keeps, if-keeps, revoke_everywhere-keeps,
}
use rdw.Server.Runs.{Keeping, KeptCalls}

module _ (Q : CoreProperty) (k : KeptCalls Q) where
  listed_marks-keeps : (o : Option BookmarkStore) → Keeping Q (λ s. (listed_marks o s).0)
  listed_marks-keeps none s h = h
  listed_marks-keeps (some bs) s h = h

  pub marks-keep : (text : Text) → Keeping Q (λ s. (handle_bookmark_list text s).0)
  unfolding handle_bookmark_list
  marks-keep text s h =
      with_target-keeps Q (parse_target_id text) _ s h
        (λ id. listed_marks-keeps (Routes.bookmarks_of id s.router) s h)

  marked-keeps :
      (id : TargetId) (code : ℕ) (q : BookmarkStore × Result BookmarkError Unit)
      (bs : BookmarkStore) (s : Server)
      → lookup id s.router.bookmarks ≡ some bs
      → Holds Q s
      → Holds Q (marked id code q s).0
  marked-keeps id code (bs', err e) bs s e' h = k.marking id bs bs' s e' h
  marked-keeps id code (bs', ok tt) bs s e' h = k.marking id bs bs' s e' h

  add_mark_to-keeps :
      (now : ℕ) (id : TargetId) (n : Text) (line : ℤ) (o : Option BookmarkStore) (s : Server)
      → lookup id s.router.bookmarks ≡ o
      → Holds Q s
      → Holds Q (add_mark_to now id n line o s).0
  add_mark_to-keeps now id n line none s e h = h
  add_mark_to-keeps now id n line (some bs) s e h = marked-keeps id 400 _ bs s e h

  pub add_mark-keeps :
      (env : Env) (text n : Text) (body : Option ℤ)
      → Keeping Q (λ s. (handle_bookmark_add env text n body s).0)
  unfolding handle_bookmark_add Routes.bookmarks_of
  add_mark-keeps env text n body s h = with_target-keeps Q (parse_target_id text) _ s h (λ id.
      with_body-keeps Q body _ s h
        (λ line. add_mark_to-keeps env.now id n line (lookup id s.router.bookmarks) s refl h))

  drop_mark_of-keeps :
      (id : TargetId) (n : Text) (o : Option BookmarkStore) (s : Server)
      → lookup id s.router.bookmarks ≡ o
      → Holds Q s
      → Holds Q (drop_mark_of id n o s).0
  drop_mark_of-keeps id n none s e h = h
  drop_mark_of-keeps id n (some bs) s e h = marked-keeps id 404 _ bs s e h

  pub drop_mark-keeps : (text n : Text) → Keeping Q (λ s. (handle_bookmark_delete text n s).0)
  unfolding handle_bookmark_delete Routes.bookmarks_of
  drop_mark-keeps text n s h =
      with_target-keeps Q (parse_target_id text) _ s h
        (λ id. drop_mark_of-keeps id n (lookup id s.router.bookmarks) s refl h)

  act_on-keeps :
      (a : GroupAction) (g : Text) (id : TargetId) (ids : List TargetId)
      → Keeping Q (act_on a g id ids)
  unfolding act_on
  act_on-keeps kill g id ids s h = broadcast_layout_update-keeps Q _ (k.killing (id ∷ ids) s h)
  act_on-keeps hide g id ids s h = send_all-keeps Q _ s h
  act_on-keeps show g id ids s h = send_all-keeps Q _ s h
  act_on-keeps focus g id ids s h = send_all-keeps Q _ s h

  act_on_group-keeps :
      (a : GroupAction) (g : Text) (ids : List TargetId)
      → Keeping Q (λ s. (act_on_group a g ids s).0)
  act_on_group-keeps a g [] s h = h
  act_on_group-keeps a g (id ∷ ids) s h = act_on-keeps a g id ids s h

  pub group-keeps : (a : GroupAction) (g : Text) → Keeping Q (λ s. (handle_group_action a g s).0)
  unfolding handle_group_action
  group-keeps a g s h = if-keeps Q (is_empty g) _ _ h (act_on_group-keeps a g _ s h)

  focused-keeps :
      (q : Manager × Result SessionError Unit) (s : Server)
      → Holds Q (set_manager q.0 s)
      → Holds Q (focused q s)
  focused-keeps (m, err e) s h = h
  focused-keeps (m, ok tt) s h = broadcast_layout_update-keeps Q _ h

  pub cycle_event-keeps : (n : Text) → Keeping Q (cycle_event n)
  unfolding cycle_event
  cycle_event-keeps n s h = focused-keeps (focus_window n s.manager) s (k.focusing n s h)

  unix_posted-keeps : (r : Result RouterError Unit) → Keeping Q (λ s. (unix_posted r s).0)
  unix_posted-keeps (err e) s h = h
  unix_posted-keeps (ok tt) s h = h

  unix_target-keeps :
      (env : Env) (line : Text) (r : Result IdError TargetId)
      → Keeping Q (λ s. (unix_target env line r s).0)
  unfolding unix_stream
  unix_target-keeps env line (err e) s h = h
  unix_target-keeps env line (ok id) s h =
      unix_posted-keeps (route_line env id line s).1 (route_line env id line s).0
        (k.routing env id line s h)

  unix_create-keeps :
      (env : Env) (b : TokenBody) (o : Option Text) → Keeping Q (λ s. (unix_create env b o s).0)
  unix_create-keeps env b none s h = h
  unix_create-keeps env b (some secret) s h = h

  unix_revoked-keeps : (s : Server) (b : Bool) → Holds Q s → Holds Q (unix_revoked (s, b)).0
  unix_revoked-keeps s true h = h
  unix_revoked-keeps s false h = h

  pub unix-keeps :
      (env : Env) (cmd : UnixCommand) → Keeping Q (λ s. (handle_unix_command env cmd s).0)
  unfolding handle_unix_command
  unix-keeps env ping s h = h
  unix-keeps env stop s h = h
  unix-keeps env (token_create none) s h = h
  unix-keeps env (token_create (some b)) s h = unix_create-keeps env b env.secret s h
  unix-keeps env (token_revoke none) s h = h
  unix-keeps env (token_revoke (some id)) s h =
      unix_revoked-keeps (revoke_everywhere id s).0 (revoke_everywhere id s).1
        (revoke_everywhere-keeps Q id s h)
  unix-keeps env (stream_line none) s h = h
  unix-keeps env (stream_line (some p)) s h =
      unix_target-keeps env p.line (parse_target_id p.target_id) s h
  unix-keeps env (unknown a) s h = h
