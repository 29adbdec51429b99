-- ===== src/Lib.antt =====
-- A model of openid-tls-connector, an OpenID Connect provider that identifies its users by the
-- subject of their TLS client certificate, which a proxy in front of it puts into a header.
--
-- The program and the files that model it:
--   Client      src/oidc/client.rs, the registry: `new`, `find_by_id`, `validate_redirect_uri`,
--               `validate_client_secret`, `constant_time_eq` under their own names.
--   Code        src/oidc/code: AuthorizationCode (authorization_code.rs), Pkce (pkce.rs), Timestamp
--               (timestamp.rs) and Signature (signature.rs).
--   Storage     src/oidc/storage.rs: the trait is the record `TokenStore` over a state, its promises
--               are the record Storage/Contract, and the in-memory store implements it.
--               Storage/Abstract is the store as two functions of a key.
--   Token       src/oidc/token.rs: keys, claims and tokens.
--   Protocol    src/oidc/protocol.rs: `authorization_request` and `access_token_request`; the latter is
--               `check_request` (its steps 1 to 3), `redeem` (4) and `issue_tokens` (5).
--               Protocol/Concurrent has several threads in `access_token_request` at once.
--   Users       src/users/mod.rs: the byte loop of `split_rdns`, `resolve` and `resolve_groups`.
--   Discovery   src/oidc/discovery.rs and endpoints.rs: the discovery document.
--   Router      src/oidc/router.rs: Authorize, Credentials (`/token`) and Bearer (`/userinfo`, `/jwks`).
--   Service     `oidc_router` of src/oidc/router.rs: requests, responses and histories of requests;
--               Abstract is about the service over the abstract store, Identity about the users that
--               the answers of `/token` are for, Expiry about the time until which `/userinfo` answers.
--   Server      src/bin/server/main.rs and config.rs: `main`, `Config::load`, and the code's key;
--               EndToEnd is about a server that `main` has started.
--   Tests       runs on concrete inputs. Tests/Unit holds the unit tests of src/ under their own
--               names, each as a Boolean that is true where its assertions hold; the libraries are its
--               parameters.
--   Common, External and Url hold what the others share.
--
-- How the parts work together: `/authorize` asks Client for the client and its redirect URIs, Users
-- for the user and the groups, and Protocol for a signed code, and redirects with it. `/token` reads
-- the credentials, and Protocol verifies the code (Code), checks the client (Client), consumes the code
-- in the store (Storage), and signs the tokens (Token). `/userinfo` verifies the token (Token) and
-- answers from the store (Storage). Server makes the state that the handlers share. Service hands each
-- request to its handler and turns what the handler returns into a response.
--
-- How state, time and failure are modelled: the token store is the state, passed through every
-- operation; each call of it is atomic, as the locks make it. Every reading of the clock is an argument
-- of its own, a time being nanoseconds since the platform's earliest one, and so are the random bytes.
-- An error is a value of `Result`; a panic is `none` or a value of its own type. Numbers are unbounded
-- but where the source's width matters: the seconds of the claims wrap at 2^64, and the sum of a time
-- and a duration fails past the platform's last time.
--
-- Concurrency: in Service a history is a list of requests, served one after the other. In
-- Protocol/Concurrent a thread's step is what it does up to and with its next call of the store, since
-- no lock is held between the calls; steps of the threads come in any order. Each thread serves one
-- request; Progress compares a thread that runs alone with the sequential code, and Order gives the
-- requests of a run an order in which they are served one after the other.
--
-- Fuel: `split_rdns` runs its loop on one more than the bytes of the name; each round passes a byte at
-- least. The loop of `hex_to_32_bytes` is recursion on its 32 rounds. All else is recursion on data.
--
-- Parameters: base64, SHA-256 and BLAKE3 (External), CBOR (Code/Signature), jsonwebtoken and rsa
-- (Token), the url crate (Url), `from_utf8`, the reading of files, TOML's reader and the binding of
-- the address. What a theorem asks of them is in its hypotheses: that CBOR and base64 read back what
-- they wrote (`ReadsBack`, `ReadsContainers`), that a decoding key accepts what its encoding key
-- signed (`IsKeyPair`), decodes it to no other claims (`DecodesSigned`), and no token whose expiry is
-- past (`ChecksExpiry`), that the keys made of one private key are a pair (`MakesPairs`), that no
-- request bears a forged signature (`Unforged`, `UnforgedBearer`), and that the random bytes of a
-- history do not repeat (`FreshIdentifiers`). Unicode's case table beyond ASCII is a parameter too.
--
-- Not modelled: axum's parsing of requests and rendering of answers, and its sockets; poisoned locks;
-- the unit tests that change a signed text by hand or write JSON, since what they test is the
-- libraries; the tests of the running server in tests, deploy and integration_tests.
pub mod Common
pub mod External
pub mod Client
pub mod Code
pub mod Storage
pub mod Token
pub mod Protocol
pub mod Users
pub mod Url
pub mod Discovery
pub mod Router
pub mod Service
pub mod Server
pub mod Tests
