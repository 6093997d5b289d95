-- ===== src/Lib.antt =====
-- The web client of the Codespace Operator (ui/src): a React application that shows, creates, scales
-- and deletes the development sessions of a Kubernetes cluster through the operator's HTTP API.
--
-- Parts, and the files that model them:
-- - ui/src/types.ts, ui/src/types/api.gen.ts: the shapes of requests and answers. Types/Session,
--   Types/Introspection, Types/Create, Types/Api. A property that may be missing is an Option, an object with
--   arbitrary keys a list of pairs in the order of Object.entries.
-- - The paths and operations of ui/src/types/api.gen.ts: Contract/Admin, Contract/Sessions and
--   Contract/Auth, as data of Contract/Defs; Contract/Matches, Contract/Conforms and Contract/Streams compare
--   the calls and the stream of the client with it.
-- - ui/src/lib/cap.ts (can, namespacesWhere): Cap, with Cap/Laws and Cap/Listing.
-- - ui/src/api/client.ts: Client (handleResponse, apiFetch, the normalizers), Client/Actions (a call as
--   a program over the browser's world) and Client/Calls (api, userApi, authApi, introspectApi), with
--   Client/Laws: Cookies (the calls as data), Requests (what each call asks for), Served, Single, Listed,
--   Answers and Paths. The world is localStorage, the events sent so far and the requests sent so far; what
--   the server answers is a function of the request history, given as a parameter.
-- - ui/src/hooks/useSessions.ts: Sessions (the event handler, the guarded actions), Sessions/Loading
--   (the list effect, the stream and the refresh as steps), Sessions/Search, Sessions/Rows,
--   Sessions/Guards, Sessions/Effective (what stands for "All"), Sessions/Targets (the targets over a
--   stream), and Sessions/Replay (the stream as a whole, and the table as a quotient of rows without doubled
--   names).
--   Sessions/Server compares the table with the cluster, a map from namespaces and names to sessions.
--   Sessions/Stream is the stream as it comes in: texts on numbered connections, and the updaters on
--   values that nobody has checked. Its child modules are Encoding (typed events as JSON), Refines (the
--   updaters on those), Broken, Updaters and Crash (what they throw), Open (which connections are open),
--   Connections (what a closed one does), and Sound (the invariant of the connections).
-- - ui/src/hooks/useNamespaces.ts: Namespaces, Namespaces/Laws, Namespaces/Permissions.
-- - ui/src/hooks/useIntrospection.ts: Fetching, Fetching/Laws. The three hooks share one step function
--   and differ in the handler of a failure.
-- - ui/src/context/IntrospectionContext.tsx: Context, Context/Laws.
-- - ui/src/hooks/useAlerts.ts: Alerts. ui/src/hooks/useAuth.ts: Auth, Auth/Laws, Auth/Components for
--   the components that call the hook at the same time, Auth/Tab for the same with requests and replies as
--   steps of their own, and Auth/Late for answers after a sign-out.
-- - ui/src/App.tsx: App, App/Namespace, App/Chrome for the frame, and App/Routes for the routes, where
--   the matching of a path by react-router is a parameter with what it documents.
-- - ui/src/components and ui/src/pages: Views, as the decisions of each view: the texts,
--   marks and disabled flags that it shows and what its handlers do.
--   SessionsTable is Rows, CreateSessionModal Form, SessionsPage Page (Page/Wired runs its handlers with
--   the client, Page/Scaled follows a scaled session to the events of the stream, Page/View is what the page
--   shows), Header Options and Menu, LoginPage SignIn (SignIn/Flow runs it with the hook and the
--   routes), ClusterSettingsPage Settings and a part of Account, UserInfoPage Account, Token and the user's matrix of Settings.
-- - ui/src/main.tsx and ui/src/ErrorBoundary.tsx: Views/Boundary.
-- - Js: what the code uses of the language and the browser: trim, includes, split, sort,
--   encodeURIComponent and decodeURIComponent, atob, URLSearchParams, JSON values and JSON.stringify, and
--   values that are undefined or throw when they are read (Value).
-- - Tests: the runs at concrete inputs.
--
-- The parts interact as in the program: the pages call the hooks, the hooks call `can` and the client,
-- the client sends requests. Effects that React runs are numbered runs; a cleanup supersedes a run, and
-- an answer names the run that it belongs to, so every order of events is a list of events.
--
-- Numbers: the code computes with JavaScript numbers that it receives as integers; replicas are the
-- integers of Prelude/Int and nothing in the model overflows. Every loop of the code walks a list, and is
-- structural recursion. Two definitions take fuel: the redirects of App/Routes, where two are enough for
-- every location, and the digits of a number n in Js/Text, with n + 1 rounds.
--
-- Texts are sequences of Unicode scalar values. sort compares UTF-16 code units as the language does.
-- toLowerCase and JSON.parse are parameters, as is the text of an exception that the browser makes.
--
-- Not modelled: the markup and style of the views, PatternFly, React's scheduling, the history of
-- react-router, how the browser opens an EventSource again after a failure, what the table throws while it
-- draws a row of the stream that nobody has checked, the catch of ui/src/hooks/useNamespaces.ts, and the
-- operator and its server, which are not written in TypeScript. An exception of an updater reaches the
-- error boundary when React renders; that React renders once more before it gives up is left out, since
-- the updaters throw again.
pub mod Alerts
pub mod App
pub mod Auth
pub mod Cap
pub mod Client
pub mod Context
pub mod Contract
pub mod Fetching
pub mod Js
pub mod Namespaces
pub mod Prelude
pub mod Sessions
pub mod Tests
pub mod Types
pub mod Views
