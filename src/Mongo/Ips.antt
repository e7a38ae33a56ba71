-- ===== src/Mongo/Ips.antt =====
-- internal/store/mongo.go: the lists of blocked and allowed addresses.
use visto_easy.Prelude.{
  Bool, false, not, String, List, Option, none, some, ◌==◌, if◌then◌else◌, trim_space, ltb, leb,
}
use visto_easy.Prelude.Clock.{Time, Env, after_opt}
use visto_easy.Model.{BlockedIp, AllowedIp}
use visto_easy.Store.State.{not_found, forbidden_state}
use visto_easy.Store.Ips.{stored_blocked, stored_allowed}
use visto_easy.Mongo.Driver.{
  MongoStore, Reply, done, refused, fault, on_answer, on_reply, find_by, list_by,
}

-- `"expiresat": bson.M{"$lte": now}`: no date, no match.
abbrev pub is_over : Time → Option Time → Bool
is_over now none = false
is_over now (some t) = leb t now

module _ {S : Type 0} (db : MongoStore S) where
  unfoldable pub upsert_blocked_ip : Env → BlockedIp → S → S × Reply BlockedIp
  upsert_blocked_ip e entry s =
      let ip' = trim_space entry.ip in
      let entry' = stored_blocked ip' (e.now 0) entry in
      let (s', written) = db.blocked_ips.upsert_one (λ b. b.ip == ip') (λ _. entry') entry' s in
      if ip' == ""
      then (s, refused forbidden_state)
      else on_answer written (s', fault) λ _. (s', done entry')

  unfoldable pub remove_blocked_ip : String → S → S × Reply Bool
  remove_blocked_ip ip s =
      let ip' = trim_space ip in
      let (s', deleted) = db.blocked_ips.delete_one (λ b. b.ip == ip') s in
      if ip' == ""
      then (s, refused forbidden_state)
      else on_answer deleted (s', fault) λ n. (s', done (ltb 0 n))

  unfoldable pub list_blocked_ips : Env → S → S × List BlockedIp
  unfolding list_by
  list_blocked_ips e s =
      let now = e.now 0 in
      let s' = (db.blocked_ips.delete_many (λ b. is_over now b.expires_at) s).0 in
      (s', list_by db.blocked_ips (λ b. not (is_over now b.expires_at)) (λ b. b.blocked_at) none s')

  unfoldable pub get_blocked_ip : Env → String → S → S × Reply BlockedIp
  get_blocked_ip e ip s =
      let ip' = trim_space ip in
      if ip' == ""
      then (s, refused forbidden_state)
      else on_reply s (find_by db.blocked_ips (λ b. b.ip == ip') s) λ b.
        if after_opt (e.now 0) b.expires_at
        then ((db.blocked_ips.delete_one (λ c. c.ip == ip') s).0, refused not_found)
        else (s, done b)

  unfoldable pub upsert_allowed_ip : Env → AllowedIp → S → S × Reply AllowedIp
  upsert_allowed_ip e entry s =
      let ip' = trim_space entry.ip in
      let entry' = stored_allowed ip' (e.now 0) entry in
      let (s', written) = db.allowed_ips.upsert_one (λ b. b.ip == ip') (λ _. entry') entry' s in
      if ip' == ""
      then (s, refused forbidden_state)
      else on_answer written (s', fault) λ _. (s', done entry')

  unfoldable pub remove_allowed_ip : String → S → S × Reply Bool
  remove_allowed_ip ip s =
      let ip' = trim_space ip in
      let (s', deleted) = db.allowed_ips.delete_one (λ b. b.ip == ip') s in
      if ip' == ""
      then (s, refused forbidden_state)
      else on_answer deleted (s', fault) λ n. (s', done (ltb 0 n))

  unfoldable pub list_allowed_ips : Env → S → S × List AllowedIp
  unfolding list_by
  list_allowed_ips e s =
      let now = e.now 0 in
      let s' = (db.allowed_ips.delete_many (λ b. is_over now b.expires_at) s).0 in
      (s', list_by db.allowed_ips (λ b. not (is_over now b.expires_at)) (λ b. b.allowed_at) none s')

  unfoldable pub get_allowed_ip : Env → String → S → S × Reply AllowedIp
  get_allowed_ip e ip s =
      let ip' = trim_space ip in
      if ip' == ""
      then (s, refused forbidden_state)
      else on_reply s (find_by db.allowed_ips (λ b. b.ip == ip') s) λ b.
        if after_opt (e.now 0) b.expires_at
        then ((db.allowed_ips.delete_one (λ c. c.ip == ip') s).0, refused not_found)
        else (s, done b)
