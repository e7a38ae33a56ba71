-- ===== src/Lib.antt =====
-- Visto Easy is a web service for visa applications. An applicant drafts a pratica and submits
-- it, the back office works on it and asks for a payment, the payment provider's webhook confirms
-- the payment, and the visa is delivered. This library models the service's Go code and states
-- what makes it correct.
--
-- Parts, and the files that model them:
--   * internal/model/types.go: Model (Values, Enums, Records). A struct is a record with the same
--     fields in snake_case, a string type is a data type of its named constants and a last
--     constructor for any other text.
--   * internal/store/memory.go: Store. State is the struct MemoryStore; Pratiche, Documenti,
--     Note, Users, Payments, Sessions, Events and Ips have one function for each method, under
--     the method's name (CreatePratica is create_pratica), from a state to the next state and a
--     Result. Order is the sorting of lists. Calls gathers the methods that write pratiche into
--     sequences of calls, and History says what the log of a pratica promises.
--   * internal/store/mongo.go: Mongo. Driver has the collections of MongoStore as a parameter of
--     functions, each with an answer or a failure; Pratiche, Users, Payments, Sessions, Events and
--     Ips have one function for each method, under the method's name. Tables says what a server
--     that answers does with lists of documents, and Server is such a server. Refinement relates
--     the tables to MemoryStore, with one module of lemmas for each group of methods; Requests,
--     Sequences and Replies compare whole sequences of calls. Races splits methods between a read
--     and the write that follows.
--   * internal/auth: Http/Tokens.
--   * internal/httpapi/middleware.go: Http/Access.
--   * internal/httpapi/server.go: the rest of Http. RateLimit, LoginLock and IpPolicy are the two
--     trackers and the decision on an address, Gate the middleware that uses them, Auth, Refresh,
--     Registration, Recovery, TwoFactor, Password and Invites the accounts, Pratiche, Documenti,
--     Pagamenti, Webhook and Backoffice the handlers for the work itself, IpRules those of the
--     lists of addresses, Events those that read the logs, Ranking the largest counts of a map,
--     Signature the check of a webhook, Pagination the pages, Reply what they share. A handler is
--     a function from the caller's claims, the decoded request and the store to the store and a
--     reply; handlers call the store's functions as the code does.
--   * Prelude has what the others share: Boolean tests, association lists for maps, package
--     strings and package time. Tests runs the model on concrete inputs.
--
-- Conventions. A method of the store runs under one mutex, so requests that run at once are some
-- sequence of calls; where a method or handler has several critical sections, nothing runs
-- between them here. The clock and package uuid are an Env, which numbers their readings in the
-- order of the code, perhaps with gaps; an Env is any functions. A Go map is an association list,
-- whose order is the order of a loop over the map. The sort of equal times is one of those that
-- Go allows. ToLower and EqualFold are those of ASCII. A time is in nanoseconds from the year 1,
-- a finite float64 is counted in units of 2^-1074. A body that does not decode is `none`. The
-- counter of pratiche and the bounds of a page wrap around at 2^64. The only fuel is that of
-- `decimal`: 20 digits, enough since a uint64 has no more.
--
-- The database. A collection is assumed to answer each call as a list of documents would: the
-- first match in some order of its own is found, updated or deleted, a unique index refuses a
-- second document, a sorted reading is some permutation in order. A failure of the driver or its
-- timeout is a reply of its own. Requests that run between a read and its write are in Races only;
-- that BSON keeps a time to the millisecond is left out.
--
-- Parameters: packages jwt, bcrypt and totp (Http/Tokens), package net's syntax of addresses
-- (NetSyntax, NetText), the HMAC (Mac), the storage service, the payment provider's API, the
-- outcome of a mail, mail.ParseAddress and the random token (Outside), the driver of the database
-- (MongoStore).
--
-- Not modelled: the connection to the database and the declaration of its indexes;
-- internal/notifications, the texts of mails and the links in them; internal/storage; the lists,
-- reports and counts of pratiche and users; texts in CSV and streams; response headers and static
-- pages; main.go and scripts.
pub mod Prelude
pub mod Model
pub mod Store
pub mod Mongo
pub mod Http
pub mod Tests
