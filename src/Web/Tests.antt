-- ===== src/Web/Tests.antt =====
-- Texts, messages and limits at concrete values.
use cppadmin.Base.{◌≡◌, [], ◌∷◌, min, none, NoByte}
use cppadmin.Web.HtmlEscape.{h, h_attr, IsClean, escape-IsClean}
use cppadmin.Web.Flash.{Session}
use cppadmin.Base.{◌≤◌, All}
use cppadmin.Base.Int.{negsuc, pos}
use cppadmin.Web.Pagination.{make_paginate_meta, page_numbers, IsLink, make_paginate_meta_bounds}
use cppadmin.Web.RateLimit.{run_window, passed, rate_limit_window}

escape_example :
    IsClean (h (60 ∷ 97 ∷ 62 ∷ []))
    × (IsClean (h_attr (60 ∷ 97 ∷ 62 ∷ [])) × NoByte b'`' (h_attr (60 ∷ 97 ∷ 62 ∷ [])))
escape_example = escape-IsClean (60 ∷ 97 ∷ 62 ∷ [])

abbrev session : Session
session = record { flash_key = none; flash_message = none; field_errors = none; old_input = none }

rate_limit_example : passed (run_window 5 60 0 7) ≡ min 7 5
rate_limit_example = rate_limit_window 5 60 7

paginate_example :
    (1 ≤ (make_paginate_meta 95 (pos 40) (negsuc 0)).page)
    × ((make_paginate_meta 95 (pos 40) (negsuc 0)).page
        ≤ (make_paginate_meta 95 (pos 40) (negsuc 0)).total_pages)
    × (1 ≤ (make_paginate_meta 95 (pos 40) (negsuc 0)).page_size)
    × All
        (IsLink (make_paginate_meta 95 (pos 40) (negsuc 0)).total_pages)
        (page_numbers (make_paginate_meta 95 (pos 40) (negsuc 0)))
paginate_example = make_paginate_meta_bounds 95 (pos 40) (negsuc 0)
