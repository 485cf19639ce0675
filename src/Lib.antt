-- ===== src/Lib.antt =====
-- The web client of TLSentinel (web/src): what it computes, keeps and sends.
--
-- The client is a single page that calls the Go server under /api/v1. It keeps a session token in
-- memory and in the browser's storage; every call goes through one function that adds the token,
-- reads the answer and signs the user out on a 401. The pages are forms on top of these calls, and
-- tools that work on certificates in the browser alone.
--
-- Which file models which part, with the sources in brackets; a child module of a file holds the
-- lemmas and theorems on it, and a child named Tests the inputs on which they are used:
--
-- - Common: the lists, options and tests on numbers that all files share.
-- - Text: JavaScript strings as lists of UTF-16 code units, with the operations that the client
--   calls (===, trim, split, join, padStart, padEnd, replace, includes). Text.Words is split and
--   trim on white space, Text.Numbers String(n), toString(16) and parseInt, Text.Parts split after
--   join.
-- - Json: values of JSON, as bodies and as the payload of a token.
-- - Types: the interfaces and unions of [web/src/types/api.ts], a record or a data type for each
--   under its own name, and the bodies that are made of them.
-- - Client [web/src/api/client.ts]: Browser is _token, localStorage and the address; set_token,
--   clear_token, has_token, get_identity, is_admin and can are the functions of the same names,
--   payload is the decoding that they share; request is request<T> up to fetch, which is
--   http_request, and behind it, which is handle_response. An Outcome is what the promise ends
--   with.
-- - Query: URLSearchParams, its set and its toString, and encodeURIComponent.
-- - Api [web/src/api/*.ts but client.ts]: one definition for each function, a Call with its method,
--   path, query and body. Api.Queries reads the queries back.
-- - Permissions [web/src/lib/permissions.ts]: the roles and hasPermission, which Client.can uses.
-- - Schedule [web/src/components/SchedulePicker.tsx, and describeCron of
--   web/src/pages/settings/MaintenancePage.tsx and
--   web/src/pages/discovery/DiscoveryNetworksPage.tsx]: cron expressions and schedules, the state
--   of the picker (Schedule.Picker) and the phrases (Schedule.Describe).
-- - Login [web/src/pages/LoginPage.tsx]: the page's state and its handlers on top of Client.request
--   and the calls of Api.Auth and Api.Totp.
-- - BulkImport [web/src/components/BulkImportDialog.tsx]: parseCSV and the validation of rows;
--   BulkImport.Dialog is the state of the dialog, with a step for each event.
-- - Toolbox.Hex and Toolbox.Panel [web/src/pages/toolbox/PemDerPage.tsx, bufToHex of
--   web/src/lib/cert-utils.ts]: bytes as hexadecimal text, the dump, and the panel from DER to PEM.
-- - Toolbox.Csr [web/src/pages/toolbox/CsrGeneratorPage.tsx]: the checks of host names and
--   addresses; Toolbox.Csr.Request is generateCSR and the test of the form.
-- - Toolbox.Chain [web/src/pages/toolbox/CertChainPage.tsx]: buildChain.
-- - TagColors [web/src/lib/tag-colors.ts]: the colour of a category.
-- - Page: what the pages below share, a handler as its effects up to an await that throws or
--   returns; Page.Endings is what such a handler ends with.
-- - EndpointForm [web/src/pages/endpoint/EndpointFormPage.tsx]: the state and what fills it;
--   EndpointForm.Save is handleSave with its checks, requests and calls.
-- - Calendar [web/src/pages/monitor/MonitorCalendarView.tsx]: buildGrid, the map by dates, the
--   selection with its effect, and the buttons.
-- - Settings.Thresholds [web/src/pages/settings/GeneralSettingsPage.tsx]: the alert thresholds.
-- - Networks [web/src/pages/discovery/DiscoveryNetworksPage.tsx]: the form of a network, and the
--   state of its page.
-- - Scanners [web/src/pages/settings/ScannersPage.tsx]: the dialogs of a scanner, and its token.
-- - GlobalSearch [web/src/components/layout/GlobalSearch.tsx]: the results, the keys and the state.
-- - Listing [web/src/components/TablePagination.tsx, web/src/pages/endpoint/EndpointPage.tsx,
--   web/src/pages/certificates/CertificatesPage.tsx, web/src/pages/root-stores/RootStoresPage.tsx]:
--   Listing.Paging, Listing.Selection and Listing.Stores.
-- - Account [web/src/pages/account/AccountPasswordPage.tsx,
--   web/src/pages/account/Account2FAPage.tsx, web/src/pages/AuthCallbackPage.tsx]:
--   Account.Password, Account.TwoFactor and Account.Callback.
--
-- State is passed explicitly: a handler is a function from the state before to the state after,
-- with the effects that leave the component as a list or a field. An asynchronous handler is cut at
-- its await; where other events may come between, as in the import dialog, the two halves are
-- events of their own, and otherwise the call is a step. What is not the client's own code is a
-- parameter: the server (a function from requests to answers, or to none where fetch rejects),
-- atob, JSON.parse, the clock and the coercion of values that are no numbers (the record Platform),
-- toLowerCase on any text, the reading of a fragment by URLSearchParams, Web Crypto and the X.509,
-- PEM and QR code packages. For the forms of endpoints and scanners the server is a record of
-- answers (Server), for a state with events each answer is an event. A default argument of the
-- source is an argument.
--
-- Numbers are exact: the source's are doubles, which are so below 2 ^ 53, and none here comes near.
-- The numbers of JSON are integers. A byte is stored modulo 256. Some loops run on fuel: the digits
-- of a number n on n + 1, which is enough since each step divides by the radix, and the lines of a
-- dump on the number of its bytes, which is enough since a line takes one at least; in the calendar
-- the padding of the last week on seven, and the cut into weeks on the number of cells, of which
-- each week takes seven. Calendar dates are computed as Gregorian ones. All other loops are
-- recursions on the text or list that the source runs over. A regular expression is a function by
-- clauses that accepts the same text.
--
-- Not modelled: what is drawn (the markup, and the components under web/src/components/ui), dates
-- in the user's locale, the other pages, and the server itself, which is another program.
mod Common
pub mod Text
pub mod Schedule
pub mod Json
pub mod Page
pub mod EndpointForm
pub mod Calendar
pub mod Settings
pub mod Listing
pub mod GlobalSearch
pub mod Networks
pub mod Scanners
pub mod Permissions
pub mod Client
pub mod Query
pub mod Types
pub mod Api
pub mod Login
pub mod Account
pub mod BulkImport
pub mod TagColors
pub mod Toolbox
