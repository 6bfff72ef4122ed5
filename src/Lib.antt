-- ===== src/Lib.antt =====
-- A model of the backend of ymatch, a service for trading merchandise of events: users record what they
-- have, want and trade, a matcher pairs users whose wishes meet within one group of an event, and each
-- match goes through proposals, acceptance, completion and the update of both inventories.
--
-- Parts, and how they interact:
--   * Error: backend/src/error.rs. AppError, its status and body, and Result with `?` as bind.
--   * Store: the tables of backend/migrations as records of lists, the state Db, and transactions Tx, which
--     are functions from a state to a result; an error carries no state, as the rollback leaves none.
--     Store.Inventory is backend/src/repositories/inventory.rs; Store.Matches, Store.Read, Store.Capacity and
--     Store.Matcher are mod.rs, write.rs, read.rs, capacity.rs and matcher.rs of
--     backend/src/repositories/match_. A function has the name of the method that it models.
--   * Lifecycle: backend/src/services/match_lifecycle.rs. Lifecycle.Guards has the guards without a database,
--     Lifecycle the transactions offer, change_status, apply_inventory and update_inventory, which run the
--     statements of Store. A push notice that the source schedules after the commit is a value returned.
--   * Projection: backend/src/services/inventory_projection.rs, with list_inventory_with_projection of
--     match_lifecycle.rs and list_for_user of repositories/inventory.rs: the inventory with the quantities that
--     it will have once the trades in progress are applied.
--   * Matching: backend/src/matching.rs, the periodic pass over the statements of Store.Matcher.
--   * Runs: any sequence of those operations, interleaved in any order, as a step relation.
--   * Rbac: roles and ownership. Rbac.Permission and Rbac.Service are backend/src/services/rbac.rs and
--     permissions.rs, Rbac.Catalog is permission_catalog.rs, and Rbac.Transfer is event.rs and group.rs there with
--     the statements of backend/src/repositories/rbac.rs, event.rs and group.rs that they run;
--     Rbac.Members has the editors and the member lists of repositories/rbac.rs, Rbac.Users the bans and global
--     roles of repositories/user.rs, and Rbac.Creation the creation of events and groups.
--   * Api: backend/src/handlers/common.rs, events.rs, groups.rs and admin.rs, the handlers that need authority:
--     the gates in their order and the service that runs behind them. Api.Requests has those on events and users
--     as data, and Api.Owners follows the ownership of events through any sequence of them.
--     Api.Messages is messages.rs there, over Store.Messages, which is repositories/message.rs.
--   * Catalog: backend/src/repositories/merch.rs, on Site, the two parts of the database together. Catalog.Create,
--     Catalog.Edit, Catalog.Remove and Catalog.Lists have its methods; Api.Merch is backend/src/handlers/merch.rs and
--     search.rs over them.
--   * Groups: backend/src/repositories/group.rs beyond creation and transfer, on World, which has the favorites too;
--     Favorites: event_favorites.rs, group_favorites.rs and event_views.rs there, and the list of events. Api.Staff
--     is the rest of backend/src/handlers/admin.rs.
--   * Accounts: backend/src/handlers/auth.rs, the views of mappers.rs and the accounts of repositories/user.rs, with
--     the credentials of the users in a table of their own.
--   * Cards: the match cards, their candidates and the badge of backend/src/repositories/match_/read.rs.
--   * Notifications: backend/src/notifications/mod.rs. Notifications.Subscriptions is push_subscription.rs of the
--     repositories and push.rs of the handlers, Notifications.Deliver the loop that sends, to a push service
--     that is a parameter: whether the message for a subscription and a payload can be built, and what is
--     answered to it.
--     Api.Trades is backend/src/handlers/matches.rs and inventory.rs with the notifications that follow.
--   * Images: backend/src/handlers/images.rs and backend/src/storage. Api.Gateway: the address and the rate limit of a
--     request in backend/src/routes.rs.
--   * Common: lists as tables, Boolean tests, and signed integers with the wrap-around of the release
--     profile. Examples: a small state, runs on it, and the theorems applied there.
--
-- A statement of SQL is a function on the tables by its WHERE and SET clauses; its constraints (primary and
-- unique keys, foreign keys, CHECKs) are tests that give the error that `From<sqlx::Error>` makes of a
-- violation. A transaction runs as one step, so `FOR UPDATE` has nothing left to do. Ids are natural
-- numbers, quantities are integers, and i32 sums of the source wrap at 32 bits; the count of rematches, which
-- the database adds to, fails at the end of its type. Loops are recursion on
-- the list that they walk, so there is no fuel. NOW() is a field of the state. Sequences do not run out and the
-- connection to the database does not fail.
--
-- Parameters, for code that is not the repository's: `trim` of Rust, ILIKE with its pattern, the order of a
-- collation, the parsers of times, URIs, UUIDs and addresses, the decoder of uploads, the limiter of rates, and the
-- answers of a push service.
--
-- Not modelled: the router and the decoding of requests, encryption and sending of push messages, the
-- system status, generated code beyond the messages that are records here, and the client. Columns
-- that no code of the model reads (times of creation of users and items, the reason of a ban, the place of
-- a message) are left out, and rows that SQL may return in any order stand in that of their table.
pub mod Catalog
pub mod Notifications
pub mod Favorites
pub mod Groups
pub mod Accounts
pub mod Cards
pub mod Images
pub mod Common
pub mod Error
pub mod Store
pub mod Lifecycle
pub mod Projection
pub mod Rbac
pub mod Api
pub mod Matching
pub mod Runs
pub mod Examples
