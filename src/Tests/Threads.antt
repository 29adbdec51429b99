-- ===== src/Tests/Threads.antt =====
-- Two threads with the request of one code.
use openid_tls_connector.Common.{
  String, List, ◌++◌, ◌+◌, ◌*◌, ◌^◌, ℕ, ◌≡◌, refl, [], ◌∷◌, true, false, ok,
}
use openid_tls_connector.Common.Assoc
use openid_tls_connector.Common.Text.{join}
use openid_tls_connector.Storage.{
  TokenRecord, lookup, InMemoryTokenStore, in_memory, issue, consume_code,
}
use openid_tls_connector.Storage.InMemory.{is_consumed, in_memory-Contract}
use openid_tls_connector.Token.{
  issue_id_token, id_token_claims, issue_access_token, access_token_claims, now_secs,
}
use openid_tls_connector.Protocol.Concurrent.Records.{IsRecordOf, record_origin}
use openid_tls_connector.Protocol.Concurrent.Order.{Entry, serve_in_turn, order, Absent}
use openid_tls_connector.Protocol.Concurrent.Order.Linear.{one_order}
use openid_tls_connector.Protocol.{
  access_token_request, Readings, AccessTokenRequest, TokenResponse, code_replay_key, issue_tokens,
  add_duration,
}
use openid_tls_connector.Protocol.Jti.{random_jti}
use openid_tls_connector.Protocol.Concurrent.{
  Stage, begun, redeeming, finished, replayed, begin, lose, win, System, update, begin_with, turn,
  Reach, start, later,
}
use openid_tls_connector.Protocol.Concurrent
use openid_tls_connector.Protocol.Concurrent.Winner.{Won, one_winner}
use openid_tls_connector.Protocol.Concurrent.Progress.{Alone, Alone-iff}
use openid_tls_connector.Tests.Samples.{
  codec, cbor, jwt_lib, flow, context, now, readings, empty_store, sample_code,
}
use openid_tls_connector.Tests.Samples
use openid_tls_connector.Tests.Flow.{after, response, grant_runs, check_passes}

abbrev Reaches : System InMemoryTokenStore → Type 0
Reaches c = Reach codec cbor jwt_lib in_memory flow context empty_store c

-- The store with the code consumed and no token.
abbrev spent : InMemoryTokenStore
spent = record { records = []; consumed_codes = ("digest", tt) ∷ [] }

-- Both threads have their requests.
abbrev both : System InMemoryTokenStore
both = record {
  store = empty_store;
  stage =
      update (update (begin_with empty_store).stage 0 (begun readings Samples.request)) 1
        (begun readings Samples.request);
}

both_reached : Reaches both
both_reached =
    later (later start (turn 0 empty_store _ (begin readings Samples.request)))
      (turn 1 empty_store _ (begin readings Samples.request))

-- The second thread has had the code consumed for it.
abbrev ahead : System InMemoryTokenStore
ahead = record {
  store = spent;
  stage = update both.stage 1 (redeeming readings Samples.request sample_code);
}

consume_runs : in_memory.consume_code empty_store (code_replay_key codec "signed") ≡ (spent, true)
unfolding code_replay_key consume_code Assoc.lookup Assoc.insert
consume_runs = refl

replay_runs : in_memory.consume_code spent (code_replay_key codec "signed") ≡ (spent, false)
unfolding code_replay_key consume_code Assoc.lookup Assoc.insert
replay_runs = refl

ahead_reached : Reaches ahead
ahead_reached =
    later both_reached
      (turn 1 spent _ (win readings Samples.request sample_code spent check_passes consume_runs))

-- The first thread has lost, and the second has its tokens.
abbrev ended : System InMemoryTokenStore
ended = record {
  store = after;
  stage =
      update (update ahead.stage 0 (finished readings Samples.request replayed)) 1
        (finished readings Samples.request (ok response));
}

issue_runs :
    issue_tokens jwt_lib in_memory context readings Samples.request sample_code spent
    ≡ (after, ok response)
unfolding issue_tokens random_jti issue_id_token id_token_claims issue_access_token
    access_token_claims now_secs add_duration join issue Assoc.lookup Assoc.insert
issue_runs = refl

ended_reached : Reaches ended
ended_reached =
    later
      (later ahead_reached
        (turn 0 spent _ (lose readings Samples.request sample_code spent check_passes replay_runs)))
      (turn 1 after _
        (Concurrent.issue readings Samples.request sample_code after (ok response) issue_runs))

abbrev second : ℕ
second = 1

one_winner_example : (second ≡ second) × (is_consumed after "digest" ≡ true)
unfolding code_replay_key
one_winner_example =
    one_winner codec cbor jwt_lib in_memory is_consumed in_memory-Contract flow context empty_store
      ended ended_reached second second "digest" refl refl

abbrev kept : TokenRecord
kept = record {
  subject = "ann";
  client_id = "app";
  scope = [];
  groups = [];
  expires_at = now + 3600 * 10 ^ 9;
  jti = Samples.jti;
}

record_origin_example :
    (i : ℕ) × (env : Readings) × (req : AccessTokenRequest) × (response : TokenResponse)
    × (ended.stage i ≡ finished env req (ok response))
    × IsRecordOf codec cbor jwt_lib in_memory is_consumed in_memory-Contract flow context env req
        Samples.jti kept
    × (is_consumed after (code_replay_key codec req.code) ≡ true)
    × ((l : ℕ)
        → Won codec cbor jwt_lib in_memory is_consumed in_memory-Contract flow context
            (ended.stage l)
            (code_replay_key codec req.code)
        → i ≡ l)
unfolding lookup Assoc.lookup
record_origin_example =
    record_origin codec cbor jwt_lib in_memory is_consumed in_memory-Contract flow context
      empty_store ended ended_reached Samples.jti kept refl refl

one_order_example :
    (before : List Entry) × (after : List Entry) × (order codec cbor jwt_lib in_memory flow context
        ended_reached
      ≡ before ++ (0, readings, Samples.request) ∷ after)
    × Absent before 0
    × Absent after 0
    × ((access_token_request codec cbor jwt_lib in_memory flow context readings Samples.request
          (serve_in_turn codec cbor jwt_lib in_memory flow context before empty_store)).1
        ≡ replayed)
    × ((k : String)
        → is_consumed
            (serve_in_turn codec cbor jwt_lib in_memory flow context
              (order codec cbor jwt_lib in_memory flow context ended_reached)
              empty_store)
            k
          ≡ is_consumed ended.store k)
one_order_example =
    one_order codec cbor jwt_lib in_memory flow context is_consumed in_memory-Contract empty_store
      ended ended_reached 0 readings Samples.request replayed refl

Alone-iff_example :
    Alone codec cbor jwt_lib in_memory flow context empty_store
      (begun readings Samples.request)
      after
      (finished readings Samples.request (ok response))
Alone-iff_example =
    (Alone-iff codec cbor jwt_lib in_memory flow context readings Samples.request empty_store after
        (ok response)).1
      grant_runs
