-- ===== src/Crawler/Browser/Tests.antt =====
-- A browser whose launch fails once: the driver of the first launch is not stopped.
use ngfw_policy.Prelude.{◌≡◌, refl, some, codes}
use ngfw_policy.Crawler.Browser.{
  Browsers, launch_error, launched, Visit, rendered, fetch_page, close_browser, new_source,
}

abbrev news : Visit
news = rendered (codes "page") (codes "http://a") (some 200)

abbrev retried : Browsers
retried =
    (fetch_page launched news (fetch_page (launch_error (codes "no display")) news new_source).1).1

lost_driver : (close_browser retried).drivers ≡ 1
unfolding fetch_page close_browser
lost_driver = refl

lost_no_browser : (close_browser retried).browsers ≡ 0
unfolding fetch_page close_browser
lost_no_browser = refl
