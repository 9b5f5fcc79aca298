-- ===== src/Lib.antt =====
-- Verification of the core of the game server of Age LAN Server (server/internal): its concurrent
-- maps and locks, the users, sessions and items, the chat channels, the matches that players host,
-- find and join (called advertisements in the code), and the handlers of the match, party, invitation,
-- chat and item routes; and the hosts file and the domains of its clients (common).
--
-- The program's parts and their files:
--   Prelude, Prelude/*       shared names, Boolean tests, lists and integers
--   KeyMutex                 server/internal/keyRWMutex.go: the lock of one key, as steps of goroutines
--   GoMap                    Go's built-in map, used through its laws
--   SafeMap, SafeMap/*       server/internal/Map.go: SafeMap and SafeSet, against a partial function
--   OrderedMap, OrderedMap/* server/internal/Map.go: SafeOrderedMap and ReadOnlyOrderedMap, against an
--                            association list
--   ChatChannel              server/internal/models/chatChannel.go; Members is its specification
--   Json, Game               server/internal/http.go and boolInt.go; common/game
--   BattleServer             server/internal/models/battleServer.go
--   User                     server/internal/models/user.go and presence.go. Identity: the generated ids;
--                            Accounts: GetOrCreateUser
--   Sessions                 server/internal/models/baseSession.go and session.go. Creating, Sweeping and
--                            Receiving (WaitForMessages)
--   Items                    server/internal/models/item.go and itemLoadout.go. Storing: items that are
--                            stored and loaded; Changing: detachItems.go, moveItem.go and
--                            updateItemAttributes.go of server/internal/routes/game/item
--   PersistentData           server/internal/models/persistentJsonData.go; Reloading: a file opened again
--   AvatarStats              server/internal/models/avatarStats.go; Setting: setAvatarStatValues.go of
--                            server/internal/routes/game/leaderboard
--   Hosts                    common/hosts: lines of the hosts file, and the mappings that AddHosts writes
--   Domains                  common/domain.go: the hosts that are redirected; Matching and Certificates: the
--                            certificates that cover them
--   Peer                     server/internal/models/peer.go
--   Advertisement            server/internal/models/advertisement.go, MainAdvertisement: one match
--   Advertisements           the same file, MainAdvertisements: the map of matches. Children: Valid (the
--                            invariant), Peers and Leaving (UnsafeNewPeer, UnsafeRemovePeer), Search,
--                            Hosting (Store), Presence (who is in which match), Writing
--   Routes                   server/internal/routes/game/advertisement. Children: Membership (leave.go,
--                            join.go, host.go), Changes (update.go, updateState.go, updateTags.go,
--                            updatePlatformLobbyID.go), Find and Observing (the searches and observers),
--                            Reachable (any series of requests); Party (peerAdd.go, peerUpdate.go,
--                            updateHost.go and sendMatchChat.go of routes/game/party), and Invitation
--                            (routes/game/invitation, against the set of open invitations); Chat
--                            (routes/game/chat)
--   Tests, Tests/*           a match that is hosted and joined, and the theorems applied to it
--
-- A SafeOrderedMap of matches holds pointers: a state has a heap from pointers to matches, and an action
-- is a function from a state to a result and a state, or to `none`, a panic (a nil dereference, a
-- call on a nil set, an index out of range). What a handler has written before a panic is not kept in
-- the result; the steps of Routes/Reachable allow such a write. A handler returns every response that
-- it writes, in turn, since a `return` in a closure does not leave the handler.
--
-- Bounds and fuel: the loop of Store that draws random ids consumes a list of draws; it is enough that
-- one of them is the id of no match. The loops of CreateSession, NewItemLoadout and generateDomains,
-- which need not end, take a number of rounds: Results says when the first and the last return. All
-- other loops run over lists. Go's `int` in the paging of a search has 64 bits: a sum of 2^63 or more
-- counts as negative. Generated ids and acknowledgements wrap at 2^64, and versions of items as an
-- int32. The other numbers are only compared and copied.
--
-- Not modelled: interleavings of handlers (each runs as a whole; KeyMutex has the locks that they
-- take, for one key), the decoding of requests (one that does not bind is `none`), JSON text, the
-- clock and the random generator and its seeds (arguments), hashes and number formats (arguments), the
-- network, the errors and locks of the files that persistent data and hosts are kept in, and the other
-- parts of the repository: the login routes, leaderboards, the launcher and its tools.
pub mod Prelude
pub mod GoMap
pub mod SafeMap
pub mod OrderedMap
pub mod Json
pub mod Game
pub mod BattleServer
pub mod Peer
pub mod User
pub mod Sessions
pub mod Items
pub mod PersistentData
pub mod AvatarStats
pub mod Hosts
pub mod Domains
pub mod Advertisement
pub mod Advertisements
pub mod Routes
pub mod Tests
pub mod KeyMutex
pub mod ChatChannel
