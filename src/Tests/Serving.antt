-- ===== src/Tests/Serving.antt =====
-- The results on ondemand.go and challenge.go at one concrete configuration.
use go_certs_manager.Base.{
  List, Map, Option, Text, [], any, codes, false, if◌then◌else◌, keep_if, lookup, none, not, refl,
  some, text_eq, to_lower, true, ℕ, ◌*◌, ◌∷◌, ◌≡◌,
}
use go_certs_manager.Budget.{second}
use go_certs_manager.Challenge.{ChallengeServer, http_key, put_http, serve_http}
use go_certs_manager.Challenge.Mirrored.{
  IsStaged, MayMirror, no_mirror, note_mirror, put_http-IsStaged,
}
use go_certs_manager.Challenge.Served.{
  IsServed, MayServe, not_asked, note_asked, serve_http-IsServed,
}
use go_certs_manager.Effects.{
  accept_challenge, ask_leader, authorize_order, ca_unreachable, enumerate, enumerate_failed, err,
  fetch_cert, finalize_order, garbage, generate_key, get_authorization, get_object, get_order,
  index_json, list_objects, lock, lookup_cname, lookup_failed, lookup_host, lookup_tlsa, not_exist,
  ok, put_object, register_account, remove_object, sleep, stat_object, storage_failed, time_now,
  try_lock, unlock, wait_authorization, wait_order, ◌>>=◌,
}
use go_certs_manager.Effects.Logic.{Safe}
use go_certs_manager.Effects.World.{Handler, run}
use go_certs_manager.Names.{normalize_domains}
use go_certs_manager.OnDemand.{
  OnDemand, allows, cert_index_key, entries, hosts, hour, refresh_leader, store,
}
use go_certs_manager.OnDemand.Catching.{note_refreshed-changed_since}
use go_certs_manager.OnDemand.Index.{changed_since, note_refreshed}
use go_certs_manager.OnDemand.Members.{
  IsRefreshed, MayPublish, hear, nothing_heard, refresh_leader-IsRefreshed, store-Members,
}
use go_certs_manager.OnDemand.Pointed.{IsJudged, MayAsk, note_dns, preflight_ok-IsJudged, unasked}
use go_certs_manager.OnDemand.Preflight.{preflight_ok}
use go_certs_manager.OnDemand.Published.{
  IndexEvent, Keeps, index_history, index_history-Keeps, issuance, new_names, retry,
}

-- Names are ASCII here.
abbrev pub plain : Text → Option Text
plain name = none

abbrev pub shop : Text
shop = codes "shop.example"

abbrev names : List Text
names = codes "Shop.example." ∷ codes "mail.example" ∷ []

abbrev pub on_demand : OnDemand
on_demand = record {
  cfg = record {
    enumerates = true;
    interval = 60 * second;
    expected_target = codes "tls.example";
    handshake_wait = 5 * second;
    max_new_orders_per_hour = 40;
    max_concurrent_orders = 4;
  };
  prefix = codes "tls/";
  allow = (shop, tt) ∷ [];
  orders = record { max = 40; window = hour; events = [] };
  index_dirty = false;
  published = [];
  has_published = false;
  preflight = (codes "old.example", 5) ∷ [];
  index = some ((shop, 90) ∷ []);
}

store-Members_example :
    let o' = store plain names on_demand in
    (allows o' shop ≡ any (λ n. text_eq n shop) (normalize_domains plain names))
    × (any (λ n. text_eq n shop) (hosts o') ≡ allows o' shop)
    × (lookup shop o'.preflight
        ≡ (if allows o' shop then lookup shop on_demand.preflight else none))
    × (lookup shop (entries o'.index)
        ≡ (if allows o' shop then lookup shop (entries on_demand.index) else none))
store-Members_example = store-Members plain names on_demand shop

refresh_leader-IsRefreshed_example :
    Safe
      (MayPublish plain on_demand)
      hear
      (IsRefreshed plain on_demand)
      nothing_heard
      (refresh_leader plain on_demand)
refresh_leader-IsRefreshed_example = refresh_leader-IsRefreshed plain on_demand

abbrev history : List IndexEvent
history = issuance shop (90 * (24 * hour)) ∷ new_names names ∷ retry ∷ []

index_history-Keeps_example :
    Keeps (codes "tls/") (some ((shop, 90) ∷ [])) (index_history plain history on_demand)
index_history-Keeps_example =
    index_history-Keeps plain (codes "tls/") history (some ((shop, 90) ∷ [])) on_demand
      (refl, λ clean h v e. e)

-- A world in which only the index can be read.
abbrev newer : Map ℕ
newer = (shop, 180) ∷ []

unfoldable index_only : Handler (Unit {0})
index_only (get_object k) w = (ok (index_json newer), w)
index_only (put_object k c o) w = (ok tt, w)
index_only (stat_object k) w = (err not_exist, w)
index_only (remove_object k) w = (ok tt, w)
index_only (list_objects p) w = (ok [], w)
index_only time_now w = (0, w)
index_only ask_leader w = (false, w)
index_only (generate_key t) w = (err storage_failed, w)
index_only (lookup_tlsa h) w = (err lookup_failed, w)
index_only register_account w = (ok tt, w)
index_only (authorize_order d) w = (err ca_unreachable, w)
index_only (get_order u) w = (err ca_unreachable, w)
index_only (wait_order u) w = (err ca_unreachable, w)
index_only (fetch_cert u) w = (err ca_unreachable, w)
index_only (finalize_order u d s) w = (err ca_unreachable, w)
index_only (get_authorization u) w = (err ca_unreachable, w)
index_only (accept_challenge c) w = (err ca_unreachable, w)
index_only (wait_authorization u) w = (err ca_unreachable, w)
index_only (try_lock d) w = (true, w)
index_only (lock d) w = (tt, w)
index_only (unlock d) w = (tt, w)
index_only enumerate w = (err enumerate_failed, w)
index_only (lookup_cname h) w = (err lookup_failed, w)
index_only (lookup_host h) w = (err lookup_failed, w)
index_only (sleep d) w = (true, w)

index-read : index_only (get_object (cert_index_key on_demand)) tt ≡ (ok (index_json newer), tt)
unfolding index_only
index-read = refl

note_refreshed-changed_since_example :
    (run index_only (do o' ← note_refreshed shop on_demand; changed_since (shop ∷ []) o') tt).0.0
    ≡ keep_if
        (λ n. not (text_eq n (to_lower shop)))
        (run index_only (changed_since (shop ∷ []) on_demand) tt).0.0
note_refreshed-changed_since_example =
    note_refreshed-changed_since index_only newer tt on_demand shop (shop ∷ []) index-read

preflight_ok-IsJudged_example :
    Safe
      (MayAsk shop on_demand)
      note_dns
      (IsJudged shop on_demand)
      (unasked none)
      (preflight_ok shop on_demand)
preflight_ok-IsJudged_example = preflight_ok-IsJudged shop on_demand

abbrev pub server : ChallengeServer
server = record {
  has_backend = true;
  prefix = codes "tls/";
  alpn = [];
  http = [];
  misses = (codes "lost", 3 * second) ∷ [];
}

serve_http-IsServed_example :
    Safe
      (MayServe server)
      note_asked
      (IsServed server)
      not_asked
      (serve_http (codes "/.well-known/acme-challenge/lost") server)
serve_http-IsServed_example = serve_http-IsServed server (codes "/.well-known/acme-challenge/lost")

put_http-IsStaged_example :
    Safe
      (MayMirror (http_key server (codes "lost")))
      note_mirror
      (IsStaged server (codes "lost") garbage)
      no_mirror
      (put_http (codes "lost") garbage server)
put_http-IsStaged_example = put_http-IsStaged server (codes "lost") garbage
