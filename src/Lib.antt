-- ===== src/Lib.antt =====
-- The web client of fusionlocalserver (web/src): the logic that decides what its users see and what it
-- sends to the server. A file's opening comment names the source file it is about, by its path from
-- the repository's root; a definition carries the source's name in snake case.
--
-- Base       what JavaScript's numbers, arrays, objects, sets and sorts need; no file of the source.
-- Board      live editing of whiteboards: Board/Protocol is web/src/whiteboards/sync/protocol.ts,
--            Board/Sync is web/src/whiteboards/useBoardSync.ts with the hook's refs and state in one
--            record, and Board/Store is the tldraw store as a parameter. A handler that awaits the
--            server is two functions: up to the request, and from the answer.
-- Chat       web/src/chat/cache.ts (Chat/Cache, Chat/Events) over the query cache of
--            @tanstack/react-query as a parameter (Chat/Query), web/src/chat/types.ts (Chat/Types) and
--            web/src/chat/typing.ts (Chat/Typing).
-- Nav        web/src/state/nav.tsx (Nav/State) and the permalinks of web/src/state/navUrl.ts (Nav/Url),
--            over encodeURIComponent and its inverse as a parameter; Nav/Jumps is
--            web/src/state/dmDeepLink.ts and web/src/state/goto.ts.
-- Pins       web/src/state/pins.ts, and the server's answers (Pins/Server: pins/pins.go, as
--            server/handlers_pins.go calls it).
-- History    web/src/components/history/historyLayout.ts: the tracks of a day, the hour gridlines (on
--            fuel for the 25 rounds that the loop can make) and declutter, over integer coordinates in
--            a unit small enough to make them whole.
-- Dates      web/src/fmt/dates.ts. A local midnight is its day number from 1 January of year 400, a time
--            zone is a function from days to milliseconds, and the fields of a Date are ECMAScript's.
-- Gantt      the task chart: web/src/tasks/types.ts (Gantt/Tasks), web/src/tasks/gantt/ganttMath.ts
--            (Gantt/Scale, Gantt/Pixels, Gantt/Rows), where coordinates are exact fractions, without
--            the machine's rounding, and web/src/tasks/gantt/useGanttDrag.ts
--            (Gantt/Drag) with the hook's refs, what it wrote to the cache and what it sent in one
--            record. The loop of columns has the source's guard of 8000 rounds; the binary search has
--            as many rounds as columns, which are proved enough.
-- Refs       the tokens that messages and pages carry (Refs/Scheme, one scheme per file:
--            web/src/components/doccard/docref.ts and its siblings), and splitting a text at them
--            (Refs/Split: web/src/components/reftokens.ts, web/src/notifications/mentions.ts), over
--            URLSearchParams as a parameter (Refs/Codec is a concrete one, for the tests).
-- Wiki       slugs, drafts and their editor: web/src/wiki/draftStore.ts (Wiki/Slug, Wiki/Drafts),
--            web/src/wiki/useDrafts.ts (Wiki/Drafts) and the handlers of web/src/wiki/WikiApp.tsx that
--            make, edit, publish, rename and delete drafts (Wiki/Session, Wiki/Editor), with the order
--            of the store's keys as a parameter. An upload, or a rename, is two steps: up to the
--            request and from the answer.
-- Quota      web/src/state/quota.ts, with Date.parse as a parameter.
-- Hub        web/src/state/hubKeys.ts, with the browser's storage and its JSON as parameters.
--
-- Numbers are natural numbers, or integers where the source's may be negative. Opaque JSON records are
-- a type parameter. Loops over collections are structural recursions.
--
-- Not modelled: rendering (the .tsx files), React's scheduling, the HTTP client, and the Go server but for its
-- answers to requests about pins.
pub mod Base
pub mod Board
pub mod Chat
pub mod Nav
pub mod History
pub mod Dates
pub mod Quota
pub mod Hub
pub mod Refs
pub mod Gantt
pub mod Pins
pub mod Wiki
