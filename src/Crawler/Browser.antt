-- ===== src/Crawler/Browser.antt =====
-- src/sources/browser_source.py and src/sources/factory.py. How Playwright's calls end is given, and
-- the state counts what runs: drivers, browsers and open contexts. Reading the URL and the headers
-- behind the content does not raise. A call runs without another one between its awaits: the calls of
-- the pipeline can interleave there, which is not modelled. The options of a context and the headers are left out.
mod Tests
use ngfw_policy.Prelude.{
  ℕ, suc, ◌+◌, ◌-◌, ◌≤◌, ◌≡◌, refl, Bool, true, false, List, [], ◌∷◌, Option, none, some, Text,
  codes, is_nil, if◌then◌else◌, if_cases, Option-cases, inl, inr, arith,
}
use ngfw_policy.Crawler.HttpSource.{FetchResult, FetchStatus, success, failed, raised, new_result}

-- `_playwright` and `_browser`, where true is an object, with what runs.
pub record Browsers : Type 0 where
  pub has_playwright : Bool
  pub has_browser : Bool
  pub drivers : ℕ
  pub browsers : ℕ
  pub contexts : ℕ

-- `__init__`
abbrev pub new_source : Browsers
new_source = record {
  has_playwright = false;
  has_browser = false;
  drivers = 0;
  browsers = 0;
  contexts = 0;
}

-- The end of the import, the start and the launch.
pub data Launch : Type 0 where
  not_installed : Launch
  start_error : Text → Launch
  launch_error : Text → Launch
  launched : Launch

-- The end of the calls behind the launch: the text, URL and code of the page, with no code for a
-- page without a response.
pub data Visit : Type 0 where
  context_error : Text → Visit
  page_error : Text → Visit
  rendered : Text → Text → Option ℕ → Visit

launch_browser : Launch → Browsers → Option Text × Browsers
launch_browser not_installed st =
    (some (codes "playwright is not installed. Run: pip install -e '.[browser]'"), st)
launch_browser (start_error message) st = (some message, st)
launch_browser (launch_error message) st =
    (some message, record st { has_playwright = true; drivers = suc st.drivers })
launch_browser launched st = (
  none,
  record st {
    has_playwright = true;
    has_browser = true;
    drivers = suc st.drivers;
    browsers = suc st.browsers;
  },
)

-- `_ensure_browser`, with the message of the exception
unfoldable pub ensure_browser : Launch → Browsers → Option Text × Browsers
unfolding launch_browser
ensure_browser l st = if st.has_browser then (none, st) else launch_browser l st

abbrev open_context : Browsers → Browsers
open_context st = record st { contexts = suc st.contexts }

abbrev close_context : Browsers → Browsers
close_context st = record st { contexts = st.contexts - 1 }

abbrev failure : Text → FetchResult
failure message = record new_result { status = failed; error = some (raised message) }

-- The body of `fetch` behind `_ensure_browser`.
unfoldable pub visit_page : Visit → Browsers → FetchResult × Browsers
visit_page (context_error message) st = (failure message, st)
visit_page (page_error message) st = (failure message, close_context (open_context st))
visit_page (rendered content address code) st = (
  record new_result {
    html = content;
    url_final = address;
    status_code = elim code [ none ↦ 0 | some c ↦ c ];
    status = if is_nil content then failed else success;
  },
  close_context (open_context st),
)

-- What `fetch` does behind `_ensure_browser`, whose exception it catches.
unfoldable pub finish_fetch : Visit → Option Text × Browsers → FetchResult × Browsers
unfolding visit_page
finish_fetch v (some message, st) = (failure message, st)
finish_fetch v (none, st) = visit_page v st

-- `fetch`
unfoldable pub fetch_page : Launch → Visit → Browsers → FetchResult × Browsers
unfolding ensure_browser finish_fetch
fetch_page l v st = finish_fetch v (ensure_browser l st)

-- `close`
unfoldable pub close_browser : Browsers → Browsers
close_browser st =
    let closed : Browsers =
      if st.has_browser
      then record st { has_browser = false; browsers = st.browsers - 1 }
      else st in
    if closed.has_playwright
    then record closed { has_playwright = false; drivers = closed.drivers - 1 }
    else closed

-- `SourceKind`
pub data SourceKind : Type 0 where
  http : SourceKind
  rss : SourceKind
  browser : SourceKind

-- The classes of `_REGISTRY`.
pub data SourceClass : Type 0 where
  http_source : SourceClass
  rss_source : SourceClass
  browser_source : SourceClass

-- `build_source`; every kind is registered, so its ValueError is not raised
unfoldable pub build_source : SourceKind → SourceClass
build_source http = http_source
build_source rss = rss_source
build_source browser = browser_source
