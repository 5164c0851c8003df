-- ===== src/Lib.antt =====
-- A verification library of go-authbyte, the Go library by which services make and check
-- credentials: API keys, DPoP proofs and their replay store, identity codes, the permissions that guard
-- routes, the keys and the claims of tokens, the client that checks requests and makes calls, the
-- client that signs people in, and the keepers of copied roles and charts.
--
-- The parts and the files that model them, by the paths of the repository:
--
-- - apikeys/: a service makes a key family (`NewScheme`), mints keys of it (`Mint`) and checks
--   presented ones (`Verify`). A check asks the limiter, reads the key's shape, looks up its stored
--   string, asks the cache of passed checks, takes a derive slot and derives once.
--   * Apikeys/Limit.antt is apikeys/limit.go: `NewMemoryLimiter`, `Allow`, `take`, `sweep` and
--     `callers` over the record MemoryLimiter. Rate, Retry and Bounds below it hold its proofs.
--   * Apikeys/Encoding/ is what apikeys/apikeys.go uses of strings, strconv and base64: Split
--     (`strings.Split` by one byte), Decimal (`FormatUint` and `ParseUint` at base 10) and Base64
--     (encoding in both alphabets, the strict decoder, `strictBase64`). UrlSafe is the decoder that
--     nonce/nonce.go uses.
--   * Apikeys/Stored.antt is the stored string: `encodeStored` and `decodeStored`.
--   * Apikeys/Scheme.antt is `Config`, `NewScheme`, `parse`, `Mint`, `hashWith` and `rehashTo` of
--     apikeys/apikeys.go, and apikeys/secret.go and apikeys/presented.go.
--   * Apikeys/Cache.antt is `successCache` of apikeys/verify.go.
--   * Apikeys/Verify.antt is `Verify`, `HTTPStatus` and `RetryAfter` of apikeys/verify.go, and New
--     below it is `NewVerifier`. The check is two steps, `admit` up to the derive slot and `finish`
--     after it; Running has the step relation under which checks interleave.
-- - replay/: Replay.antt is replay/replay.go, the in-memory store of the identifiers that were
--   seen (`CheckAndSet`, `gc`) and the one call that the Redis store makes. Replay/Spec.antt is the
--   store that forgets nothing, which it is compared with.
-- - identitycode/: IdentityCode.antt is identitycode/identitycode.go: `Canonical`, `Key`, `Display`
--   and `Parse`, whose regular expressions are matchers in IdentityCode/Chars.antt.
-- - permissions/: Permissions.antt is permissions/permissions.go, a set of declared permissions and
--   the reading of its declarations; Permissions/Gate.antt is permissions/gate.go, the route guards
--   `OneOf`, `AllOf` and `Member` over the state of a request.
-- - jwks/: Jwks.antt is jwks/jwks.go, the cache of an issuer's public keys: `Key`, `cached` and
--   `refresh`, which asks the issuer at most once in an interval.
-- - claims/: Claims.antt is claims/claims.go: the claims of a token, the delegation chain, and what
--   a request's user is built from (`ToUserClaims`, `ActingClient`).
-- - dpop/: Dpop.antt is `Verify` of dpop/dpop.go: what is asked of a DPoP proof, in order, over what
--   the libraries parse. Dpop/Generate.antt is `GenerateProof`.
-- - nonce/: Nonce.antt is nonce/nonce.go, the nonces that a server issues and checks by their MAC.
-- - authclient/: a service's client. Inbound checks a request: it uses the key set, the claims, the
--   proofs, the nonces and the replay store, in that order. Tokens asks the token endpoint and keeps
--   what it gives, and Calls sends requests with these tokens.
--   * Authclient/Inbound.antt is `New`, `newReplayStore`, `requestURL` and `bearerToken`, and
--     Authclient/Inbound/Checks.antt is `parseToken`, `validate`, `handle` and `TryAuthenticate`, of
--     authclient/client.go, authclient/middleware.go and authclient/errors.go.
--   * Authclient/Tokens.antt is the token cache of authclient/outbound.go (`cached`, `store`, the
--     acquisitions, `postTokenForm`) and authclient/keyexchange.go.
--   * Authclient/Calls.antt is `DoWithToken` and `doBackgroundWith` of authclient/background.go and
--     `doWithDPoP` of authclient/outbound.go. Services below it is the calls that acquire their token
--     (`DoService`, `GetJSON` and their likes), and Authclient/Headers.antt is the headers.
-- - placement/ and chart/: a service keeps copies of each organisation's roles and of its chart,
--   and trusts a copy only for a while after it was confirmed.
--   * Keeper.antt is the keeper of placement/placement.go and of chart/chart.go, which have the same
--     code but for the counts: `New`, `Wake`, `Run` as one step per event, `cycle`, `Sync`, `fail`
--     and `Ready`, with what follows a confirmation as a parameter.
--   * Placement.antt is `reportCounts`, `Sync` and `cycle` over Keeper, and the types of placement/placement.go, and
--     Placement/Register.antt is placement/register.go.
--   * Chart.antt is `Sync` and `cycle` of chart/chart.go over Keeper, and chart/register.go.
-- - asclient/: a service that signs people in, with a key of its own per session.
--   * Asclient.antt is asclient/client.go: `dpopDo`, which answers one challenge, and the calls made
--     by it. Asclient/SignIn.antt is asclient/oidc.go, a sign-in with an ID token, over the key set of
--     Jwks. Asclient/Connections.antt is asclient/connections.go, and Asclient/Labels.antt is
--     asclient/token.go and asclient/pkce.go.
--
-- Base.antt has what these share: tests on numbers, lists measured by native numbers, slices, texts
-- as lists of code points, Go maps as association lists with distinct keys (walked in the order of
-- the list, which stands for any), and results that are a value or an error.
--
-- How it is modelled. A string is the list of its code points (its bytes where the code indexes
-- bytes). A time is a number of nanoseconds, and subtraction stops at 0 where the code compares the
-- difference with a bound that is not negative. A mutex makes each call one step. The state is
-- passed explicitly. SHA-256, argon2id, the clock, the system's randomness, the store behind a
-- lookup, the limiter behind a verifier, an issuer's answers, the token endpoint and the services
-- called, the encodings of `net/http`, `net/url` and JSON, and the Redis client are arguments. That
-- argon2id gives a tag of the length it is asked for, in bytes, is a named hypothesis (IsDerive)
-- where it is used.
--
-- Bounds. The digits of a number are written with fuel 20, which a number below 2 to the power of 64
-- never exhausts. Every other recursion is structural.
--
-- Not modelled: the defaults and the bindings of authclient/config.go; the calls with a timeout of
-- authclient/outbound.go, which differ in the transport only; the HTTP client of asclient/ and the Go
-- types that an answer is decoded to, and the reading of a token without its signature; the ticker of
-- `Run`; permissions/permissionstest; the rendering of permissions as sections and as a command's
-- output; and the error texts.
pub mod Base
pub mod Apikeys
pub mod Replay
pub mod IdentityCode
pub mod Permissions
pub mod Jwks
pub mod Claims
pub mod Dpop
pub mod Nonce
pub mod Authclient
pub mod Keeper
pub mod Placement
pub mod Chart
pub mod Asclient
