-- ===== src/Tests/Includes.antt =====
-- session.py: the search for an include file below /b.
use cwhost.Base.{◌≡◌, refl, true, false, none, some, [], ◌∷◌}
use cwhost.Base.Int.{negsuc}
use cwhost.Base.Result.{ok}
use cwhost.Vfs.{vfs_new, node, parent}
use cwhost.Vfs.Listing.{children, children_named}
use cwhost.Session.Includes.{
  Roots, Search, is_under, include_search_roots, walk_slash_include, walk_from, component, child,
  candidates, node_is_under, find_plain, find_in_roots, search_roots, find_file,
}
use cwhost.Session.Includes.Found.{IsFile, Remembered, find_file-IsFile}
use cwhost.Tests.Vfs.{lower, disk, start, root_node, source_node}

abbrev roots : Roots
roots = record { files = []; include_user = root_node ∷ []; include_system = [] }

abbrev searching : Search
searching = record { vfs_state = start; last_loaded = none }

finds_any_case :
    (find_file lower disk "main.c" roots false (negsuc 0) searching).0 ≡ ok (some source_node)
unfolding find_file search_roots find_in_roots include_search_roots find_plain candidates
    children_named children node vfs_new
finds_any_case = refl

finds_by_slashes :
    (find_file lower disk "./../b/Main.c" roots true (negsuc 0) searching).0 ≡ ok none
unfolding find_file search_roots find_in_roots include_search_roots walk_slash_include walk_from
    component child node_is_under is_under children_named children parent node vfs_new
finds_by_slashes = refl

find_file-IsFile_example :
    IsFile lower disk (some source_node)
    × Remembered lower disk
        (some source_node)
        (find_file lower disk "main.c" roots false (negsuc 0) searching).1
unfolding find_file search_roots find_in_roots include_search_roots find_plain candidates
    children_named children node vfs_new
find_file-IsFile_example =
    find_file-IsFile lower disk "main.c" roots false (negsuc 0) searching (some source_node)
      (find_file lower disk "main.c" roots false (negsuc 0) searching).1 refl refl
