-- ===== src/Lib.antt =====
-- A model of the Stockic news services (github.com/Stockic/stockic-feed-api), with proofs.
--
-- The program has four services that share stores. feed-curator fetches news once a day, prepares
-- summaries and writes them as JSON under two keys of a Redis cache. feed-api serves pages of that
-- cache to users, whose API keys it validates against Firestore through another Redis cache, and
-- counts the articles that they read in a third Redis. A synchronisation moves these counters to
-- MinIO. actions keeps the bookmarks of users in their Firestore documents and logs them in to Notion.
--
-- Files and code:
-- - Common: lists, tests and state passing that the other modules share.
-- - Go: the parts of the language and its standard library that the code uses: 64-bit ints as
--   two's complement bit patterns, slices that panic, strings as bytes with strings.Split and
--   strings.TrimPrefix, strconv.Atoi, hex.EncodeToString, base64, net.SplitHostPort,
--   strings.TrimSpace, filepath.Base and filepath.Ext, the response writer and the mux of net/http,
--   and the end of a process.
-- - Stores: Redis, Firestore, MinIO, the clock and JSON texts as records of operations over an abstract
--   world. What the code relies on in them are the hypotheses IsCache, IsDocumentStore,
--   Backends, RoundTrip and FindsAdded, and, where they are declared, IsBucketStore, IsCounter,
--   IsStore, Agrees, Updates, IsApart, Separate, Quiet, IsObjectStore,
--   NothingStored and IsLogFile.
-- - Startup: the files database/database.go, of which each service has a copy; FeedApi.Startup,
--   FeedCurator.Startup, Actions.Startup and LogPusher.Startup: the start of each service and one round
--   of its PushAppLogToMinIO. Startup.Firebase: InitializeFirebase of feed-api and actions, with its
--   sync.Once; the client of Firebase that it makes is a parameter.
-- - Logs: LogMessage of the four files utils/utils.go, over the log and the console as an abstract world;
--   Logs.Uploaded: the log file as the upload of Startup finds it.
-- - FeedApi.Models: feed-api/models/models.go.
-- - FeedApi.Paginate: PaginateArticles of feed-api/services/services.go. FeedApi.UserStatus:
--   ValidateUserAPIKey, GetCachedUserStatus and CacheUserStatus there; FeedApi.FindArticle:
--   FindArticleByID; FeedApi.LogSync: SyncLogRedisToMinIO, one round; FeedApi.Blocked: IsBlocked and
--   SaveBlockedIPToFirebase, with GetClientIP and FallbackHandler.
-- - FeedApi.Handlers: feed-api/handlers/handlers.go, with DeliverJsonError of feed-api/utils/utils.go.
--   A handler takes a request, a response writer and the world, and returns the response, the
--   goroutines that it starts and the world, or none where the code panics.
-- - FeedApi.Middleware: RequestMiddleware of feed-api/middleware/middleware.go.
-- - FeedApi.Routes: setupRoutes of feed-api/main.go and the server's answer to a request. Paths are
--   clean; net/http redirects others to their clean form before it looks at the table.
--   FeedApi.Server: the server at work: requests that do not panic, the goroutines of the handlers, and
--   entries of the cache that expire, in any order.
-- - FeedCurator.Models, Summarizer, Fetcher: the packages of feed-curator of these names. The loops over
--   pages run on fuel; if the service answers with the pages of a list, one round more than there
--   are articles is enough.
-- - FeedCurator.Summarizer.Maps: a Go map without its order, as a quotient of the lists of its entries.
-- - FeedCurator.Assistants: summarizer, highlighter and CompaniesTagger of the package summarizer, whose
--   calls are commented out.
-- - FeedCurator.Utils: RemoveDuplicates, RemoveHashPrefix, ExtractPoints and FindHighlightIndexes of
--   feed-curator/utils/utils.go; the inner loop of the last runs on fuel, two rounds more than the text
--   has bytes.
-- - FeedCurator.Storage: the archives of feed-curator/database/database.go and StoreSummarizedRedis of
--   feed-curator/summarizer/summarizer.go; FeedCurator.Round: one round of feed-curator/main.go, on
--   the fuel of the loops over pages.
-- - EndToEnd: a round of feed-curator and then a request to feed-api, over one news cache.
--   EndToEnd.Served: the same through the whole server, with its routes and the validation.
--   EndToEnd.Outage: a round while no request to the news service succeeds.
--   EndToEnd.Status: validations and requests about bookmarks, in any order, over one Firestore.
-- - LogPusher: SyncLogRedisToMinIO of log-redis-pusher/services/services.go, one round; its text is that
--   of feed-api. LogPusher.Shared: the steps of both synchronisations and of detail requests, in any
--   order, on one Redis. LogPusher.Lost: a round whose uploads fail.
-- - Actions.Models: actions/models/models.go. Actions.Bookmarks and Actions.Session:
--   actions/handlers/handlers.go, with GenerateSessionKey of actions/utils/utils.go. Actions.Access:
--   the middleware of actions; its validation is that of feed-api, word for word. Actions.Routes:
--   setupRoutes of actions/main.go.
--   Actions.Session.Keyless: a login for which no key could be made, and a callback after it.
--   Actions.Session.Protocol: logins that are begun, called back and expire, of many users in any order.
-- - Tests below each service: concrete runs.
--
-- A Go map is the list of its entries in the order in which a loop visits them; theorems range over
-- all lists, so over all orders. The map that a synchronisation builds is uploaded in the order that
-- the parameter `visit` gives it. Log messages are left out of all definitions but those of Logs, and
-- printing, pauses, contexts and tickers of all.
-- README.md says that headlines and the news feed are those of the user's region. The code reads no
-- region and takes the list of the United States for every user, and so does the model.
-- Not modelled: the loops of the servers and tickers, and the waiting for midnight in the main loop of
-- feed-curator, which are the library's or only wait, and PrintResponse, which only prints.
pub mod Common
pub mod Go
pub mod Stores
pub mod Startup
pub mod Logs
pub mod FeedApi
pub mod FeedCurator
pub mod Actions
pub mod LogPusher
pub mod EndToEnd
