-- ===== src/Server/Runs.antt =====
-- When a property of windows, pipelines, bookmarks and layouts is kept by every step of a server: it
-- has to be kept by the calls of the handlers that change one of these.
use rdw.Common.{
  lookup, insert, Result, ok, err, Text, is_empty, ◌≡◌, refl, not, Option, none, some, List,
}
use rdw.Session.TargetId.{TargetId, parse_target_id}
use rdw.Session.Manager.{
  PaneState, WindowState, is_found, create_window, close_window, rename_window, focus_window,
  find_pane, Snapshot, snapshot,
}
use rdw.Session.Bookmark.{BookmarkStore}
use rdw.Kv as Store
use rdw.Kv.{Key, KvError, parse_key, Store}
use rdw.Router as Routes
use rdw.Router.{RouterError}
use rdw.Pipeline.{}
use rdw.Hub.{window_focus}
use rdw.Server.{Server, Env, Answer, write_header, with_windows}
use rdw.Server.Control.{set_label, with_bookmarks, route_line}
use rdw.Server.Windows.{
  set_manager, handle_window_create, handle_window_close, handle_window_rename, handle_window_focus,
}
use rdw.Server.Panes.{
  posted, post_line, handle_stream_post, SplitBody, split_body, handle_pane_split, close_target,
  handle_pane_close, RenameBody, title_of, retitle, handle_pane_rename, attach_to,
  handle_pane_filter_add,
}
use rdw.Server.Swap.{swap_panes, swap_found, handle_pane_swap}
use rdw.Server.Layouts.{handle_layout_save, apply_saved, apply_found, handle_layout_apply}
use rdw.Server.Keys.{with_key, stored_value, handle_kv_set, handle_kv_delete}
use rdw.Server.Tokens.{}
use rdw.Server.Marks.{}
use rdw.Server.Groups.{kill_panes}
use rdw.Server.CycleRoutes.{}
use rdw.Server.Status.{}
use rdw.Server.Guards.{}
use rdw.Server.Unix.{}
use rdw.Server.Requests.{}
use rdw.Server.Keeps.{
  CoreProperty, Holds, with_body-keeps, with_target-keeps, with_manager-keeps, send_all-keeps,
  broadcast_layout_update-keeps, if-keeps,
}

module _ (Q : CoreProperty) where
  -- A change of a server that keeps the property.
  abbrev pub Keeping : (Server → Server) → Type 0
  Keeping f = (s : Server) → Holds Q s → Holds Q (f s)

  pub record KeptCalls : Type 0 where
    pub creating : (n : Text) → Keeping (λ s. set_manager (create_window n s.manager).0 s)
    pub closing : (n : Text) → Keeping (λ s. set_manager (close_window n s.manager).0 s)
    pub focusing : (n : Text) → Keeping (λ s. set_manager (focus_window n s.manager).0 s)
    pub renaming : (m n : Text) → Keeping (λ s. set_manager (rename_window m n s.manager).0 s)
    pub splitting : (parent : Text) (b : SplitBody) → Keeping (λ s. (split_body parent b s).0)
    pub removing : (id : TargetId) → Keeping (λ s. (close_target id s).0)
    pub swapping :
        (a b : WindowState × PaneState) (s : Server) (i j : TargetId)
        → find_pane i s.manager ≡ some a
        → find_pane j s.manager ≡ some b
        → Holds Q s
        → Holds Q (with_windows (swap_panes a b) s)
    pub labelling : (id : TargetId) (t : Text) → Keeping (set_label id t)
    pub filtering :
        (env : Env) (id : TargetId) (cmd : Text)
        → Keeping (λ s. (attach_to env id cmd (lookup id s.router.pipes) s).0)
    pub routing :
        (env : Env) (id : TargetId) (line : Text) → Keeping (λ s. (route_line env id line s).0)
    pub saving :
        (n : Text) → Keeping (λ s. record s { layouts = insert n (snapshot s.manager) s.layouts })
    pub applying :
        (n : Text) (snap : Snapshot) (s : Server)
        → lookup n s.layouts ≡ some snap
        → Holds Q s
        → Holds Q (apply_saved snap s)
    pub marking :
        (id : TargetId) (bs bs' : BookmarkStore) (s : Server)
        → lookup id s.router.bookmarks ≡ some bs
        → Holds Q s
        → Holds Q (with_bookmarks (insert id bs') s)
    pub killing : (ids : List TargetId) → Keeping (kill_panes ids)

  module _ (k : KeptCalls) where
    pub create-keeps : (body : Option Text) → Keeping (λ s. (handle_window_create body s).0)
    unfolding handle_window_create
    create-keeps body s h = with_body-keeps Q body _ s h (λ n.
        with_manager-keeps Q 409 (create_window n s.manager) (write_header 201) s (k.creating n s h)
          (λ v. v))

    pub close-keeps : (n : Text) → Keeping (λ s. (handle_window_close n s).0)
    unfolding handle_window_close
    close-keeps n s h =
        with_manager-keeps Q 404 (close_window n s.manager) (write_header 204) s (k.closing n s h)
          (λ v. v)

    pub rename-keeps :
        (n : Text) (body : Option Text) → Keeping (λ s. (handle_window_rename n body s).0)
    unfolding handle_window_rename
    rename-keeps n body s h = with_body-keeps Q body _ s h (λ m.
        with_manager-keeps Q 409 (rename_window n m s.manager) (write_header 204) s
          (k.renaming n m s h) (λ v. v))

    pub focus-keeps : (n : Text) → Keeping (λ s. (handle_window_focus n s).0)
    unfolding handle_window_focus
    focus-keeps n s h =
        with_manager-keeps Q 404 (focus_window n s.manager) _ s (k.focusing n s h)
          (λ v. send_all-keeps Q (window_focus n) (set_manager (focus_window n s.manager).0 s) v)

    pub split-keeps :
        (parent : Text) (body : Option SplitBody)
        → Keeping (λ s. (handle_pane_split parent body s).0)
    unfolding handle_pane_split
    split-keeps parent body s h = with_body-keeps Q body _ s h (λ b. k.splitting parent b s h)

    pub close_pane-keeps : (text : Text) → Keeping (λ s. (handle_pane_close text s).0)
    unfolding handle_pane_close
    close_pane-keeps text s h =
        with_target-keeps Q (parse_target_id text) _ s h (λ id. k.removing id s h)

    swap_found-keeps :
        (i j : TargetId) (o o' : Option (WindowState × PaneState)) (s : Server)
        → find_pane i s.manager ≡ o
        → find_pane j s.manager ≡ o'
        → Holds Q s
        → Holds Q (swap_found o o' s).0
    swap_found-keeps i j none o' s e e' h = h
    swap_found-keeps i j (some a) none s e e' h = h
    swap_found-keeps i j (some a) (some b) s e e' h =
        broadcast_layout_update-keeps Q _ (k.swapping a b s i j e e' h)

    pub swap-keeps : (a : Text) (body : Option Text) → Keeping (λ s. (handle_pane_swap a body s).0)
    unfolding handle_pane_swap
    swap-keeps a body s h = with_body-keeps Q body _ s h (λ b.
        with_target-keeps Q (parse_target_id a) _ s h (λ i.
          with_target-keeps Q (parse_target_id b) _ s h (λ j.
            swap_found-keeps i j (find_pane i s.manager) (find_pane j s.manager) s refl refl h)))

    retitle-keeps : (t : Text) (id : TargetId) → Keeping (λ s. (retitle t id s).0)
    unfolding retitle
    retitle-keeps t id s h =
        if-keeps Q (not (is_found (find_pane id s.manager))) _ _ h
          (broadcast_layout_update-keeps Q _ (k.labelling id t s h))

    pub rename_pane-keeps :
        (text : Text) (body : Option RenameBody) → Keeping (λ s. (handle_pane_rename text body s).0)
    unfolding handle_pane_rename
    rename_pane-keeps text body s h = with_body-keeps Q body _ s h (λ b.
        if-keeps Q (is_empty (title_of b)) _ _ h (
          with_target-keeps Q (parse_target_id text) _ s h
            (λ id. retitle-keeps (title_of b) id s h)))

    pub filter-keeps :
        (env : Env) (text : Text) (body : Option Text)
        → Keeping (λ s. (handle_pane_filter_add env text body s).0)
    unfolding handle_pane_filter_add Routes.get
    filter-keeps env text body s h = with_body-keeps Q body _ s h (λ cmd.
        if-keeps Q (is_empty cmd) _ _ h
          (with_target-keeps Q (parse_target_id text) _ s h (λ id. k.filtering env id cmd s h)))

    posted-keeps : (r : Result RouterError Unit) → Keeping (λ s. (posted r s).0)
    posted-keeps (err e) s h = h
    posted-keeps (ok tt) s h = h

    pub stream-keeps :
        (env : Env) (text : Text) (body : Option Text)
        → Keeping (λ s. (handle_stream_post env text body s).0)
    unfolding handle_stream_post post_line
    stream-keeps env text body s h = with_target-keeps Q (parse_target_id text) _ s h (λ id.
        with_body-keeps Q body _ s h (λ line.
          posted-keeps (route_line env id line s).1 (route_line env id line s).0
            (k.routing env id line s h)))

    pub save-keeps : (body : Option Text) → Keeping (λ s. (handle_layout_save body s).0)
    unfolding handle_layout_save
    save-keeps none s h = h
    save-keeps (some n) s h = if-keeps Q (is_empty n) _ _ h (k.saving n s h)

    apply_found-keeps :
        (n : Text) (o : Option Snapshot) (s : Server)
        → lookup n s.layouts ≡ o
        → Holds Q s
        → Holds Q (apply_found o s).0
    apply_found-keeps n none s e h = h
    apply_found-keeps n (some snap) s e h =
        broadcast_layout_update-keeps Q _ (k.applying n snap s e h)

    pub apply-keeps : (n : Text) → Keeping (λ s. (handle_layout_apply n s).0)
    unfolding handle_layout_apply
    apply-keeps n s h = apply_found-keeps n (lookup n s.layouts) s refl h

    pub with_key-keeps :
        (r : Result KvError Key) (f : Key → Server → Answer) (s : Server)
        → Holds Q s
        → ((key : Key) → Holds Q (f key s).0)
        → Holds Q (with_key r f s).0
    with_key-keeps (err e) f s h g = h
    with_key-keeps (ok key) f s h g = g key

    stored_value-keeps :
        (env : Env) (key : Key) (v : Text) (q : Store.Store × Result KvError Unit)
        → Keeping (λ s. (stored_value env key v q s).0)
    stored_value-keeps env key v (st, err e) s h = h
    stored_value-keeps env key v (st, ok tt) s h = h

    pub put_key-keeps :
        (env : Env) (text : Text) (body : Option Text)
        → Keeping (λ s. (handle_kv_set env text body s).0)
    unfolding handle_kv_set
    put_key-keeps env text body s h = with_key-keeps (parse_key text) _ s h (λ key.
        with_body-keeps Q body _ s h
          (λ v. stored_value-keeps env key v (Store.put key v s.router.store) s h))

    pub delete_key-keeps :
        (env : Env) (text : Text) → Keeping (λ s. (handle_kv_delete env text s).0)
    unfolding handle_kv_delete
    delete_key-keeps env text s h = with_key-keeps (parse_key text) _ s h (λ key. h)
