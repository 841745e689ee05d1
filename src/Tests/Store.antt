-- ===== src/Tests/Store.antt =====
-- Runs on internal/kvstore, internal/control, internal/auth and the rate limiter of internal/server.
use rdw.Common.{
  if◌then◌else◌, is_present, length, take, pos, lookup, remove, IsDistinct, total, ok, Text, codes,
  text_eq, text_eq_iff, is_empty, ◌+◌, ◌-◌, ◌≤◌, ◌≡◌, refl, ◌↔◌, ◌&&◌, ◌||◌, none, some, List, [],
  ◌∷◌, ◌++◌, arith,
}
use rdw.Kv.{
  value_max_bytes, store_max_bytes, Key, matches_key, parse_key, Store, new_store, put, get,
  snapshot, has_prefix, keys,
}
use rdw.Kv.Limits.{is_stored, get-put}
use rdw.Kv.Limits as Limits
use rdw.Kv.Persist.{load, IsStored, load_saved}
use rdw.Kv.Keys.{listed, IsAscending, keys-IsAscending}
use rdw.Control.{known_kinds, multi_kinds, parse_in, cut_at, leading_space, trailing_space}
use rdw.Control.Prefix.{of_cut, parse_in-first_colon}
use rdw.Control.Pairs.{IsPair}
use rdw.Auth.{new_token_store, CreateOptions, token_id_of, create, verify, revoke}
use rdw.Auth.Verify.{is_within, verify-create, revoke-final}
use rdw.Auth.Verify as Verify
use rdw.Session.TargetId.{all_bytes}
use rdw.RateLimiter.{rate_limit_requests, RateLimiter}
use rdw.RateLimiter.Window.{Request, allowed, asked, min, allowed-window}

abbrev two_keys : Store
two_keys = record {
  entries = (codes "host", codes "db1") ∷ (codes "port", codes "80") ∷ [];
  total_bytes = 5;
}

two_keys-IsValid : Limits.IsValid two_keys
two_keys-IsValid = record {
  distinct = unfold lookup in unfold text_eq in (refl, (refl, tt));
  counted = unfold total in refl;
  within = omega arith;
  values_fit = (omega arith, (omega arith, tt));
}

get-put_example :
    (((put (codes "host") (codes "db2!") two_keys).1 ≡ ok tt) ↔ (
      (length (codes "db2!") ≤ value_max_bytes)
      × (total length (remove (codes "host") two_keys.entries) + length (codes "db2!")
          ≤ store_max_bytes)))
    × (get (codes "port") (put (codes "host") (codes "db2!") two_keys).0 ≡ (
        if is_stored (put (codes "host") (codes "db2!") two_keys).1
          && text_eq (codes "host") (codes "port")
        then some (codes "db2!")
        else get (codes "port") two_keys))
get-put_example = get-put (codes "host") (codes "port") (codes "db2!") two_keys two_keys-IsValid

abbrev kv_calls : List Limits.Call
kv_calls = Limits.put_call (codes "host") (codes "db2!") ∷ Limits.delete_call (codes "port") ∷ []

two_keys-IsStored : IsStored two_keys.entries
two_keys-IsStored =
    unfold lookup in
    unfold text_eq in
    unfold parse_key in
    unfold matches_key in
    unfold all_bytes in (refl, refl, omega arith, (refl, refl, omega arith, tt))

load_saved_example : load (snapshot two_keys) new_store ≡ two_keys
load_saved_example = load_saved two_keys two_keys-IsValid two_keys-IsStored

keys-IsAscending_example :
    IsAscending (keys (codes "p") two_keys)
    × ((k : Key)
        → listed k (keys (codes "p") two_keys)
          ≡ ((is_empty (codes "p") || has_prefix (codes "p") k) && is_present (get k two_keys)))
keys-IsAscending_example = keys-IsAscending (codes "p") two_keys two_keys-IsValid.distinct

abbrev other_order : Store
other_order = record {
  entries = (codes "port", codes "80") ∷ (codes "host", codes "db1") ∷ [];
  total_bytes = 5;
}

other_order-IsDistinct : IsDistinct other_order.entries
other_order-IsDistinct = unfold lookup in unfold text_eq in (refl, (refl, tt))

other_order-get : (k : Key) → get k two_keys ≡ get k other_order
other_order-get k =
    unfold get in
    unfold lookup in ground (arith, text_eq_iff (codes "host") k, text_eq_iff (codes "port") k)

parse_in-first_colon_example :
    parse_in multi_kinds (codes "bm:end:1")
    ≡ of_cut (multi_kinds ++ known_kinds) (cut_at b':' (codes "bm:end:1"))
parse_in-first_colon_example = parse_in-first_colon multi_kinds (codes "bm:end:1") (λ p. refl)

abbrev some_pairs : List (Text × Text)
some_pairs = (codes "host", codes "db=1") ∷ (codes "port", []) ∷ []

host-IsPair : IsPair (codes "host", codes "db=1")
host-IsPair = record {
  has_key = λ e. ground (arith, e);
  key_plain = ground arith;
  entry_plain = ground arith;
  no_leading = unfold leading_space in refl;
  no_trailing = unfold trailing_space in refl;
}

key-IsPair : IsPair (codes "port", [])
key-IsPair = record {
  has_key = λ e. ground (arith, e);
  key_plain = ground arith;
  entry_plain = ground arith;
  no_leading = unfold leading_space in refl;
  no_trailing = unfold trailing_space in refl;
}

-- A digest that tells texts apart by their first twenty bytes.
abbrev short_digest : Text → Text
short_digest s = take 20 s

abbrev one_hour : CreateOptions
one_hour = record { expiry = pos 3600; panes = []; windows = [] }

verify-create_example :
    verify short_digest
      (codes "secret")
      100
      (create short_digest (codes "secret") 50 one_hour new_token_store).0
    ≡ (if text_eq
          (token_id_of (short_digest (codes "secret")))
          (token_id_of (short_digest (codes "secret")))
        then (if text_eq (short_digest (codes "secret")) (short_digest (codes "secret"))
              && is_within 100 50 one_hour.expiry
            then some (create short_digest (codes "secret") 50 one_hour new_token_store).1
            else none)
        else verify short_digest (codes "secret") 100 new_token_store)
verify-create_example =
    verify-create short_digest (codes "secret") (codes "secret") 50 100 one_hour new_token_store

abbrev later_calls : List (Verify.Call short_digest)
later_calls =
    Verify.create_call (codes "other") 60 one_hour ∷ Verify.revoke_call (codes "none") ∷ []

revoke-final_example :
    verify short_digest (codes "secret") 100 (
      Verify.calls short_digest later_calls
        (revoke
          (token_id_of (short_digest (codes "secret")))
          (create short_digest (codes "secret") 50 one_hour new_token_store).0).0)
    ≡ none
revoke-final_example =
    revoke-final short_digest (codes "secret") 100 later_calls
      (create short_digest (codes "secret") 50 one_hour new_token_store).0
      ((λ e. ground (arith, e)), (tt, tt))

abbrev one_bucket : RateLimiter
one_bucket = (codes "10.0.0.1", record { count = 9; reset_at = 60 }) ∷ []

abbrev three_requests : List Request
three_requests = (codes "10.0.0.1", 5) ∷ (codes "10.0.0.2", 6) ∷ (codes "10.0.0.1", 7) ∷ []

allowed-window_example :
    allowed (codes "10.0.0.1") three_requests one_bucket
    ≡ min (asked (codes "10.0.0.1") three_requests) (rate_limit_requests - 9)
allowed-window_example =
    allowed-window (codes "10.0.0.1") three_requests one_bucket
      (record { count = 9; reset_at = 60 }) (unfold lookup in unfold text_eq in refl)
      (omega arith, (omega arith, (omega arith, tt)))
