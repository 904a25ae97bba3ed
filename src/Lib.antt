-- ===== src/Lib.antt =====
-- LabKeeper's web portal (web/src): a page in the browser that signs the user in at an OpenID
-- Connect provider, calls the server's API with the token, and shows sites, hosts, credentials and
-- terminals. The development models the portal's TypeScript; the server and the agent are Go, and
-- are here only as the answers of the network.
--
-- The parts, from the bottom up, with the file that models each:
--   Config         web/src/lib/config.ts: the settings, read from the build's environment
--   Theme          web/src/lib/theme.ts: the light and the dark look of the page
--   Json           JSON values and the reading of a property
--   Base64         btoa and atob, as randomString and readJwtExpMs of web/src/lib/oidc.ts use them
--   Sha256         web/src/lib/sha256.ts: the hash for pages that have no crypto.subtle
--   Oidc           web/src/lib/oidc.ts: the session, the login, the callback and the refresh
--   Oidc.Flights   refreshAccessToken of web/src/lib/oidc.ts, when calls of it overlap
--   Oidc.Promises  handleCallback of web/src/lib/oidc.ts, when calls of it overlap
--   Api            web/src/lib/api.ts: apiFetch, the calls of the API, the terminal's address
--   TextSet        the sets of texts that components keep in their state
--   Effects        the effect of a page that loads something, with its cancellation
--   HostDetail     web/src/components/HostDetail.tsx: what the page shows of a host, its loads and
--                  handlers
--   SiteDetail, DiscoveryPanel, CredentialList, ThemeToggle
--                  the files of the same names in web/src/components
--   CredentialsPage
--                  web/src/pages/CredentialsPage.tsx
--   Overview       web/src/components/LabKeeperDetail.tsx and web/src/lib/inventoryTree.tsx
--   Entry          web/src/pages/CallbackPage.tsx, the login button, the guard of the shell and of
--                  the root route
--   CredentialForm, HostForm, SiteForm
--                  the forms of the same names in web/src/components
--   SidebarTree    web/src/components/SidebarTree.tsx: the sites that are open, and their hosts
--   HostTerminal   web/src/components/HostTerminal.tsx: the console of a host
--   Items          what a component shows: its texts, buttons, fields, links and child components, in
--                  their order. The lists themselves are in Panel, Screen, Fields, Table, Rows and Pages
--                  below the component's module
--   Submission     a form in use: only what it shows can be changed or clicked
--   Portal         web/src/app/routes.tsx: which component is shown at which address
-- Common has what they share: the library's names, Boolean tests, texts, bytes and numerals.
--
-- How they interact: a form calls Api.Endpoints, each call there is one apiFetch (Api.Fetch),
-- which takes its token from ensureAccessToken (Oidc.Session), and on a 401 refreshes once and
-- otherwise starts a new login (Oidc.Login). The login hashes its PKCE verifier with Sha256 and
-- Base64. All addresses come from Config.
--
-- State and operations. A function and a constant have the source's name in snake case. The texts
-- of JavaScript are lists of UTF-16 code units. oidc.ts and api.ts run in a World (Oidc.World):
-- the two items of sessionStorage, the clock, the random source, the module's variables, the
-- replies that the network will give, the requests that went out, and the last assignment to the
-- page's address. An asynchronous function is an action, a function from a world to a result and
-- the next world; what it throws is a Failure, and SessionExpiredError is one constructor of it. A
-- form is a record of its useState variables, and a handler a function on it, with the world where
-- it calls the API. The console is a machine of events, in any order: a run of its effect starts
-- or is cleaned up, a ticket arrives, a socket opens, speaks, fails or closes, the user types.
--
-- A page that loads something is a Page of Effects: what its effect does when it starts, what it
-- does with an answer, and what the handlers do. Effects plays events on it in any order: the page
-- is rendered with an address, an answer comes to one of the runs of the effect, a handler runs,
-- the page goes away. An answer to a run that was cancelled changes nothing. What a page keeps is
-- proved from three laws (Effects.Laws.Keeps), with a condition on the answers that come: that the
-- server answers with the object that was asked for, and that the session lasts. The calls of
-- refreshAccessToken and handleCallback that overlap are machines of events too (Oidc.Flights and
-- Oidc.Promises), in which other work may change the world between the begin of an exchange and
-- its end; what an exchange reads before its first request is read at the begin.
--
-- What a component shows is a list of items, computed from its state. A button or field in it
-- holds the handler that it calls, and whether it is disabled, so that the list says what the user
-- can do. DiscoveryPanel.Requests, CredentialForm.Use and Submission play what is allowed, with
-- the answers of the requests in between, and count the requests that are under way. Submission is
-- an interface, with laws on the flag `saving` (Submission.Single), that HostForm.Single and
-- SiteForm.Single fill.
--
-- Oidc.Runs and Oidc.Completion follow a whole login, from the redirect to the provider to the
-- session. What the provider does is a record of assumptions there (Provides, SendsBack), and what
-- the server and the provider answer in a renewal is another (Renews in Api.Fetch.Renewal).
--
-- Bounds and fuel. A numeral is printed with fuel n + 1 for the number n, and n has fewer digits.
-- The blocks of SHA-256 are taken with fuel for each of them, from the padded length, and the
-- standard's description of the hash, to which it is compared, has none. Words are taken modulo 2
-- ^ 32 wherever the source shifts or adds them. No other function has fuel: the loops of the
-- source run over lists, and the retry after a 401 is written out, as it is in the source.
--
-- Parameters, where the portal calls what is not in the repository: JSON.parse is a function of
-- the world from a text to a JSON value, or none where it throws; so are crypto.subtle.digest, the
-- random bytes, whether the context is secure, and the environment. The messages of errors that
-- the engine throws, the printing of a date, and whether the constructor of a WebSocket throws are
-- arguments. Numbers in JSON are natural: the portal reads no others. An item of sessionStorage
-- holds the value that was stored, or a text that JSON.parse refuses. How the router matches an
-- address with the table of routes is a parameter too; what the portal relies on is ChoosesFrom
-- and Matches of Portal: it chooses from the table, and takes the route of the path to which the
-- portal navigates. The number of navigations that are followed is the fuel of Portal.follow, and
-- one is enough.
--
-- Not modelled: tags, classes, icons, colours, titles and placeholders, the options of the console
-- that are disabled, and what the browser checks of a required field; xterm.js; React beyond the
-- order of an effect and its clean-up, so that an effect that runs once when a component is
-- mounted runs once, and not twice as under StrictMode in development (Entry.Callback alone takes
-- both runs, since there the second one matters); the address that the provider's document gives
-- for the logout is taken to be one, where `new URL` would throw; the table of credentials is
-- mounted anew, and loads, whenever the form closes, and CredentialsPage has only the key that
-- makes it load besides; how the router matches an address; the server, the agent
-- and the migrations.
pub mod Common
pub mod Config
pub mod Theme
pub mod Json
pub mod Base64
pub mod Sha256
pub mod Oidc
pub mod Api
pub mod HostDetail
pub mod CredentialForm
pub mod HostForm
pub mod HostTerminal
pub mod SiteForm
pub mod SidebarTree
pub mod Effects
pub mod Items
pub mod Submission
pub mod TextSet
pub mod SiteDetail
pub mod Entry
pub mod Overview
pub mod Portal
pub mod DiscoveryPanel
pub mod ThemeToggle
pub mod CredentialList
pub mod CredentialsPage
