-- ===== src/Rest/Pages.antt =====
-- schemaLoader.js: the page that the list and the history answer with.
use davepi.Base.{List, if◌then◌else◌, none, some, ℕ, ◌+◌, ◌-◌, ◌/◌}
use davepi.Js.{Value}
use davepi.Rest.{ℤ, Page}
use davepi.Rest.Numbers.{previous, following, times, exceeds, is_after_first}

-- `(page - 1) * pageSize`
unfoldable pub skip_of : ℤ → ℕ → ℤ
skip_of page page_size = times (previous page) page_size

-- `Math.ceil(count / pageSize)`, for a page size that is not 0
unfoldable pub total_pages_of : ℕ → ℕ → ℕ
total_pages_of count page_size = (count + (page_size - 1)) / page_size

unfoldable pub page_of : List Value → ℕ → ℤ → ℕ → Page
page_of results count page page_size =
    let total_pages : ℕ = total_pages_of count page_size in
    record {
      results = results;
      total_results = count;
      page = page;
      per_page = page_size;
      total_pages = total_pages;
      next_page = if exceeds total_pages page then some (following page) else none;
      prev_page = if is_after_first page then some (previous page) else none;
    }
