-- ===== src/Lib.antt =====
-- GoShort, a URL shortener: an HTTP server that stores short URLs in PostgreSQL, answers redirects
-- through a Redis cache, records clicks in the background, and limits the requests of a client.
--
-- A request passes the security headers, the rate limiter, the multiplexer and, on the URL endpoints,
-- the authentication. It reaches a handler, which calls the URL service or the authentication service.
-- The URL service validates, draws short codes, and works on the database through the repositories; the
-- cached service puts the cache in front of the redirects. The authentication service registers users
-- and issues access tokens, which the middleware reads, and refresh tokens, which it stores as hashes.
-- The click workers store click events from a queue.
--
--   Base         lists, tests, the integers and the text functions of the package strings
--   Outcome      errors as values, results, and actions on a state (S → Result A × S); IsNotFound of
--                repository/url_repository.go, IsUniqueViolation of repository/user_repository.go
--   Model        model/*.go, and IdempotencyRecord of repository/idempotency_repository.go
--   Db           the database: tables as lists of rows, sequences, the clock, and the answers to come
--   Repository   Urls for repository/url_repository.go, Users for repository/user_repository.go, Tokens
--                for repository/refresh_token_repository.go, Keys for
--                repository/idempotency_repository.go, Clicks for repository/click_event_repository.go
--   Cache        cache/redis.go, with NewRedisCache in Config
--   Service      ShortCode, Validate and Urls for service/url_service.go, Cached for
--                service/cached_url_service.go
--   Security     RateLimiter for security/rate_limiter.go, Middleware for security/middleware.go and for
--                the answers of the rate limiter
--   Auth         Password for auth/password.go, Tokens and Service for auth/auth_service.go, Middleware
--                for auth/auth_middleware.go; Admission for both together
--   Worker       worker/click_worker.go
--   Handler      Path, Manage, Create, Redirect and Analytics for handler/url_handler.go, Body for
--                handler/json.go, Auth for handler/auth_handler.go
--   Server       main.go: the routes and the chain of middlewares, over any service; Startup for its start,
--                with database/postgres.go; Shutdown for its end, with the pool of workers
--   Tests        examples at concrete inputs
--
-- State. A call of a repository is an action on Db, with the SQL statement as a function on the rows and
-- the constraints of the migrations as its errors. Every round trip takes the next of the server's
-- replies: it is served, it is refused before it is run, or it is run and its answer is lost. Rotate
-- works on a copy of the tables, which its commit puts in place. The services act on the database, on
-- the random bytes to come, and on the cache. Each function has the name of the Go function in snake
-- case; delete_short_url is DeleteURL of the cached service. An instant and a duration are a number of
-- nanoseconds, and an int64 id is an integer.
--
-- Loops. The attempts of CreateShortURL recurse on the ten attempts of the source, and those of process
-- on its max_retries, so that neither can run out. The loop of generateShortCode recurses on the bytes
-- that the random source delivers; a source that delivers no more is the error of rand.Read. The pool of
-- workers is a relation of steps, in any order.
--
-- Integers. The backoff is computed with the wrap-around of int64 written out. Other counters of the
-- source do not come near their bounds and are natural numbers.
--
-- Parameters. encoding/json with its decoder, the Redis server, the parsers of net/url and net,
-- net.SplitHostPort, the lower case and the classes of a character, json.Valid, the column type JSONB,
-- bcrypt, SHA-256, the library jwt, the order that the database gives to texts, the day of an instant,
-- http.ServeMux, http.MaxBytesReader, the file server, the environment, redis.ParseURL, and the texts
-- of foreign errors. A Redis server shows a value only if it was set and not deleted since, and not
-- once its time to live is over; it may forget a value at any time. What json.Marshal has written
-- json.Unmarshal reads back. A password matches its bcrypt hash. What a JSONB column prints, it prints
-- the same again, and an empty object as it is written. A token that was signed with HS256 is parsed
-- under the same secret while its claims pass the options of the call, and a token that is parsed has
-- claims that pass them and a method that was given a key; where a theorem puts a token into a header,
-- it assumes that there is no blank in it. The multiplexer chooses the longest pattern that matches a
-- path, or answers by itself. Where a theorem speaks of the rows of one hash, it assumes that no two
-- rows have the same hash.
--
-- Many requests at once. Service/Cached/Schedule has the steps that requests take on the shared cache and
-- table, in any order; Worker/Pool those of the handlers and the workers on the queue; Server/Shutdown
-- those of main after the signal, with the handlers and the workers that still run. The rate limiter
-- holds its mutex, so that a request is one step. Service/Cached/History has sequences of calls, one
-- after another, of the service with and without a cache.
--
-- Not modelled. Logging and timeouts of single calls; the connections and the listener of main.go; the
-- header X-RateLimit-Limit; web, which is a page of static files; paths with an escaped slash, which
-- the multiplexer does not divide there. A user agent and a referrer are taken as they come. An update
-- of the database whose answer is lost, and an invalidation that does not reach the Redis server,
-- leave an old entry in the cache until its time to live is over.
pub mod Base
pub mod Outcome
pub mod Model
pub mod Db
pub mod Repository
pub mod Cache
pub mod Service
pub mod Security
pub mod Auth
pub mod Worker
pub mod Handler
pub mod Server
pub mod Tests
