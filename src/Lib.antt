-- ===== src/Lib.antt =====
-- The logic of the web applications of AlgoTest: competitor-frontend, where contestants submit
-- programs during a round, and admin-frontend, where organizers set up problems and teams. Both are
-- clients of one backend; what is modelled is the state that they keep in the browser and the
-- computations on it.
--
-- The parts, and how they work together:
--
-- * Feed is the feed of submissions, competitor-frontend/src/components/portal/submissions-provider.tsx.
--   Its stream (Feed/Stream.antt, the loop `streamLoop`) cuts a text into chunks and reads the
--   payload of each; the payload, parsed, goes to `handle_event`, and from there to `apply_progress`
--   (Feed/Provider.antt), which asks `should_apply_submission_progress` (Feed/Progress.antt, of
--   competitor-frontend/src/lib/submission-progress.ts) whether the update counts. Feed/Actions.antt
--   has the list that is loaded when the page opens, a round of polling, and `submitFast`;
--   Feed/Session.antt has a session as a list of these events. Feed/Summary.antt is the breakdown of
--   verdicts, competitor-frontend/src/lib/verdict-summary.ts. Feed/Backend.antt is the server actions
--   that the feed calls, competitor-frontend/src/actions/code.ts, with their
--   schemas, and Feed/Runs.antt its `runCode` with competitor-frontend/src/lib/runner.ts.
--   Feed/Types.antt has the records of
--   competitor-frontend/src/types/submission.ts and code.ts.
-- * Proctor is the state of the proctoring, competitor-frontend/src/components/portal/proctor-provider.tsx
--   and competitor-frontend/src/lib/proctor.ts: the verdict on the account and on the agent of this
--   machine (Proctor/Resolve.antt), the search of the loopback ports and one `refresh`
--   (Proctor/Loopback.antt). The feed and the pages are closed while it is locked.
-- * Clock is the clock of the round, competitor-frontend/src/components/portal/contest-provider.tsx:
--   Clock/Tick.antt has `calculateTick`, the thresholds and the changes of status, Clock/Format.antt
--   the printed time.
-- * TestCases is the test cases of a problem. TestCases/Points.antt (points) and TestCases/Pairs.antt
--   (`matchTestFilePairs`, which pairs the files that are dropped) are of
--   admin-frontend/src/lib/testcase-utils.ts; TestCases/Bank.antt has the handlers of
--   admin-frontend/src/components/problem-editor/test-cases-tab.tsx: the queue of uploads, the retry,
--   the deletion and the saving of points. Its even split hands out the points of TestCases/Points.antt.
-- * Users is the import of competitors and their assignment to teams,
--   admin-frontend/src/components/admin-users.tsx; its rows are those that Csv reads.
-- * Teams is the bulk import of teams, admin-frontend/src/components/teams/team-bulk-dialog.tsx, which
--   reads its lines as Csv does.
-- * Timer is the organizers' timer, admin-frontend/src/components/timer/contest-timer-client.tsx; it
--   shows the round that Clock shows to contestants. Timer/Settings.antt is its dialog of settings, and
--   Timer/Contest.antt the server actions, admin-frontend/src/lib/actions/contest.ts with
--   lib/validation/contest.ts beside it.
-- * Csv is the reading of rosters, admin-frontend/src/lib/csv-utils.ts and
--   admin-frontend/src/components/users/csv-utils.ts.
-- * History is the snapshots of a contestant's code, competitor-frontend/src/hooks/use-history.ts: the
--   callback `record`, and in History/Merge.antt `mergeServerSubmissions`. Languages is the languages
--   of the editor, competitor-frontend/src/lib/languages.ts.
-- * Workspace is the editor of a problem,
--   competitor-frontend/src/components/workspace/code-workspace.tsx: its state and its editing in
--   Workspace.antt, the runs and the submissions in Workspace/Sending.antt, and in Workspace/Keys.antt
--   what code-editor.tsx beside it counts. Workspace/Desk.antt puts it together with History and with
--   `submitFast` of Feed, as a list of events; each event sees the state that the one before it left.
-- * Browse is the lists of the portal: the challenges
--   (competitor-frontend/src/components/challenges/challenges-list-client.tsx), the submissions
--   (components/submissions/submissions-client.tsx) and the standings
--   (components/leaderboard/leaderboard-client.tsx), with the stable sort that they share.
-- * Loading is the data of the organizers' pages, admin-frontend/src/hooks/use-async-data.ts, with the
--   requests that are pending as a step relation.
-- * Pages is the tables in pages, admin-frontend/src/hooks/use-pagination.ts; Auth is signing in:
--   Auth.antt has the address of a client, packages/auth/src/client-ip.ts, Auth/Session.antt the
--   actions of packages/auth/src/actions.ts on the cookies of one browser, and Auth/Session/Apps.antt
--   the server actions of the two apps, competitor-frontend/src/actions/auth.ts and
--   admin-frontend/src/lib/actions/auth.ts.
-- * Prelude has what they share: texts as lists of UTF-16 code units with the methods of JavaScript
--   that the programs call, maps as association lists in the order of insertion, lists over the
--   native numbers. Tests has runs on concrete data.
--
-- State is passed explicitly: an operation is a function from the state to the state, with `useState`
-- values and refs in one record. An interleaving is a list of events. Numbers are natural numbers;
-- subtraction stops at 0 where the code takes the maximum with 0, and in the pages, which are numbered
-- from 1 on. The digits of a number (Prelude/Decimal.antt) are computed on fuel, one more than the
-- number, which is at least as many as it has digits. The loop of `pageWindow` (Pages/Window.antt) runs
-- on the number of pages as fuel, since it ends when its offset, which begins at 1, is above that
-- number. Every other loop runs over a list or up to a number.
--
-- Parameters stand for what is outside the two applications: `date_parse` for `Date.parse`, `date_time` for
-- the time value of a date, `stamp` for the text of `Date.now()` in the id of an alert, `probe` and
-- `answer` for what an agent or the backend says, `me` for whom the backend names for a session,
-- `locale_le` and `locale_before` for `localeCompare`, `get_time` and `to_locale_time` for a date and how it is written,
-- and `too_big` and `issue` for a message of the library zod. The regular expressions of file names are written
-- out as functions. `JSON.parse` is not modelled: the stream's theorems
-- end at the payloads, and a session begins with the parsed updates. Texts are lower-cased on ASCII.
--
-- Not modelled: the dialogs of single tests; the preview of long texts; the backend in Go and the
-- desktop client in Rust; the editor Monaco; React's rendering, its timers, its cache and the delays
-- of reconnecting; the markup of the pages; and the server actions that only pass a request on to the
-- backend.
pub mod Prelude
pub mod Feed
pub mod Proctor
pub mod Clock
pub mod TestCases
pub mod Csv
pub mod Auth
pub mod Pages
pub mod Loading
pub mod Teams
pub mod Users
pub mod Timer
pub mod History
pub mod Languages
pub mod Workspace
pub mod Browse
pub mod Tests
