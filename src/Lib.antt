-- ===== src/Lib.antt =====
-- Statora: the web client of a status page (apps/web/src).
--
-- The client shows the state of services to the public, and lets signed-in users administer it. Its
-- own logic is in functions over plain data (lib/, hooks/), in the guards around its routes (App.tsx)
-- and in the handlers of its pages. A page asks the server through the client of lib/api.ts, whose
-- interceptors read and clear the session that lib/auth.ts keeps in localStorage; the guards of
-- App.tsx decide from that session what is rendered; the login and profile pages write it, and the
-- layout of the administration ends it. The pages of the administration each keep a list, a form and
-- what is under way, and send what the form holds; the public pages show what they fetch and are told
-- of changes through a socket.
--
-- Files and the code they model (paths from apps/web/src):
--   Prelude      shared: tests, lists measured by native numbers, stable sorting, equality, a Map of
--                arrays (Buckets), permutations, decimal numbers, the string methods in use
--   Types        types/index.ts, one record or data type for each type, with optional properties as
--                Option; Json stands for the values of rich text
--   Utils        lib/utils.ts: labels, dates, relative time, and the groupings of incidents
--   Auth         lib/auth.ts over a storage (Auth/Storage) that is a function from keys
--   Api          lib/api.ts (both interceptors) and lib/apiError.ts
--   App          App.tsx: protected_route is ProtectedRoute, role_route RoleRoute,
--                admin_index_redirect AdminIndexRedirect, route the table, follow the navigation
--   Login        pages/admin/AdminLogin.tsx: a handler that awaits is its part before the request
--                (begin_...) and its part after the reply (finish_...); Step relates the states
--   Profile      pages/admin/AdminProfile.tsx: each handler from its start to its end, with the
--                answers of the server as a record
--   Pagination   hooks/useAdminPagination.ts and components/AdminPaginationControls.tsx
--   Settings     lib/statusPageSettings.ts: Partial is the form in which settings arrive, Preset the
--                name of the theme, Cache the storage, Document the head of the document
--   Theme        lib/themePresetLoader.ts: Names, the catalogue and selection, and the Loader
--   Content      lib/contentModel.ts
--   Monitoring   lib/statusCategoryMonitoring.ts
--   Query        hooks/useApi.ts: the state before a request (begin_...) and after it (finish_...)
--   Hooks        hooks/useTheme.ts and hooks/useWebSocket.ts, as step relations; the sockets and the
--                timers of the latter are counts
--   Admin        pages/admin. Dialog is the editing dialog that five of the pages each write out, with
--                the page's own parts as a record (Editor) and the events of the first two of the
--                pages as steps; Requests what is sent with `api`.
--                Components, SubComponents, Maintenance, Incidents (Row is IncidentRow), Monitors
--                (Form its fields), Members, Subscribers (with the webhook channels), Activate and
--                Settings (Normalize, MetaTags; Secret has its events) are the pages; Layout is
--                AdminLayout.tsx, with its navigation (Nav) and the sections of its sidebar
--                (Sections)
--   Public       pages/HistoryPage.tsx (History), pages/StatusCategoryPage.tsx (Category),
--                components/IncidentCarouselGroup.tsx (Carousel), pages/StatusPage.tsx (Status)
--   Examples     the theorems at concrete inputs, and the data for them
--
-- Auth/Refinement specifies the session apart from the storage, as an abstract machine of a token and
-- a profile; files named Laws, or for what they prove, hold the theorems on the file above them.
--
-- Names are those of the source in snake case. A property that may be missing is an Option; undefined
-- and null are told apart only where the code does. A handler that changes state maps the state to
-- the next one. Sorting is a stable insertion sort over the test "the comparator is not positive".
-- Loops are structural recursion. Only follow is run on fuel, one unit for each render; the theorem
-- on it shows that three are enough.
--
-- What the code takes from outside is a parameter: the calendar and time zone (Dates), the comparison
-- of texts by locale, the names of months, JSON at a type (Codec, whose laws say that what is written
-- is read back and is not empty), toLowerCase, toISOString, encodeURIComponent, the modules that the
-- bundler finds, whether a stylesheet loads, whether the storage accepts a text, what the user
-- confirms, and the answers of the server.
--
-- Numbers of the source are natural numbers here: pages, limits, counts and times since 1970 in
-- milliseconds. Times before 1970 and the rounding of integers past 2 ^ 53 are not modelled. Upper
-- and lower case are those of the ASCII letters where the code's own pattern admits no others.
--
-- Not modelled: the markup of the pages and the constants of their styles; the dashboard, the logs of
-- a monitor and the components that only show data; the bounds of a quarter as texts; the editor and
-- the QR codes (libraries); the parsing of the messages of the socket; and the server (another
-- program, in Go).
pub mod Prelude
pub mod Types
pub mod Utils
pub mod Auth
pub mod Api
pub mod App
pub mod Pagination
pub mod Settings
pub mod Content
pub mod Monitoring
pub mod Login
pub mod Profile
pub mod Theme
pub mod Hooks
pub mod Admin
pub mod Public
pub mod Query
pub mod Examples
