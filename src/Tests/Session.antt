-- ===== src/Tests/Session.antt =====
-- session.py and pluginlib.py: a session over a heap of 4096 bytes, whose context is at 0x100.
use Prim.Native.String.{String}
use cwhost.Base.{
  ℕ, ◌+◌, ◌≡◌, ◌==◌, refl, true, false, none, some, List, [], ◌∷◌, if◌then◌else◌, arith,
}
use cwhost.Base.Int.{ℤ, pos, negsuc}
use cwhost.Base.Result.{Result, ok, err}
use cwhost.Base.Bytes.{Bytes}
use cwhost.Base.Dict.{lookup}
use cwhost.Guest.Memory.{read, write}
use cwhost.Memory.Realloc.Laws.{IsReady}
use cwhost.Memory.Heap.{Heap, alloc}
use cwhost.Memory.Heap.Alloc.{alloc-IsValid}
use cwhost.Memory.Heap.Blocks.{covers}
use cwhost.Memory.Heap.Invariant.{IsValid}
use cwhost.Session.{
  SessionError, not_done, loaded, initialized, Session, CwMemHandle, alloc_cw_handle,
  cw_handle_bytes, free_request_handles,
}
use cwhost.Session.Requests.{req_initialize, Runs, request}
use cwhost.Session.Scoped.{hits, Held, Avoids, free_request_handles-Freed}
use cwhost.Session.Stored.{MakesCwHandle, alloc_cw_handle-MakesCwHandle}
use cwhost.Plugin.{take_args, enter}
use cwhost.Plugin.Callbacks.{done_plugin_request}
use cwhost.Plugin.Keeps.{Same}
use cwhost.Plugin.Table.{Callback, is_stub, callback, Calls, idle, computes, finishes, refuses}
use cwhost.Plugin.Context.{Refused, callback-Refused}
use cwhost.Plugin.Serve.{Traced, begun, Served, request-Served}
use cwhost.Tests.Memory.{ram, empty_heap, empty_heap-IsValid}

abbrev decode : Bytes → String
decode bytes = "C/C++ Compiler"

abbrev session : Session ram
session = record {
  manager = record { machine = record { heap = empty_heap; memory = λ x. 0 }; handles = [] };
  gprs = λ n. if n == 3 then 7 else 0;
  scratch_next = 0x2A00_0000;
  setup = record {
    panels = ("C/C++ Compiler", 1 ∷ 2 ∷ 3 ∷ []) ∷ [];
    api_version = 13;
    flags = record {
      preprocess = false;
      debug = true;
      precompile = false;
      auto_precompile = false;
      cache_precompiled_headers = false;
    };
    file_count = 1;
    target_name = some (84 ∷ []);
  };
  interrupted = false;
  fragment = some (record { main_tvector = 0x2000; term_tvector = none });
  ctx_ptr = some 0x100;
  progress = record { current = none; done = none; done_count = 0 };
  phase = loaded;
  closed = false;
  cw_handles = [];
  text_buffers = [];
  secret_words = [];
  license_tokens = [];
  file_ids = [];
}

session-IsReady : IsReady ram session.manager.machine
session-IsReady = record { valid = empty_heap-IsValid; covered = λ x l r. ground arith }

alloc_cw_handle-MakesCwHandle_example :
    MakesCwHandle ram session
      (1 ∷ 2 ∷ 3 ∷ [])
      true
      (alloc_cw_handle ram (1 ∷ 2 ∷ 3 ∷ []) true session)
alloc_cw_handle-MakesCwHandle_example =
    alloc_cw_handle-MakesCwHandle ram session (1 ∷ 2 ∷ 3 ∷ []) true session-IsReady

-- the bytes of a handle are read back
abbrev one_handle : Session ram
one_handle = (alloc_cw_handle ram (1 ∷ 2 ∷ 3 ∷ []) true session).1

reads_back : (cw_handle_bytes ram 4096 one_handle).0 ≡ ok (1 ∷ 2 ∷ 3 ∷ [])
unfolding alloc_cw_handle cw_handle_bytes alloc write read cwhost.Guest.Memory.w32
    cwhost.Guest.Memory.u32
reads_back = refl

-- one handle of the request, at 4096, and one that lasts, at 4108
abbrev four_blocks : Heap
four_blocks =
    (alloc (pos 0) (pos 4)
      (alloc (pos 8) (pos 4) (alloc (pos 3) (pos 4) (alloc (pos 8) (pos 4) empty_heap).1).1).1).1

four_blocks-IsValid : IsValid four_blocks
four_blocks-IsValid =
    let one = (alloc (pos 8) (pos 4) empty_heap).1 in
    let two = (alloc (pos 3) (pos 4) one).1 in
    let three = (alloc (pos 8) (pos 4) two).1 in
    alloc-IsValid (pos 0) (pos 4) three (
      alloc-IsValid (pos 8) (pos 4) two (
        alloc-IsValid (pos 3) (pos 4) one
          (alloc-IsValid (pos 8) (pos 4) empty_heap empty_heap-IsValid)))

abbrev of_request : CwMemHandle
of_request = record { handle = 4096; block = 4104; size = 3; request_scoped = true }

abbrev that_lasts : CwMemHandle
that_lasts = record { handle = 4108; block = 4116; size = 0; request_scoped = false }

abbrev two_handles : Session ram
two_handles = record session {
  manager = record { machine = record { heap = four_blocks; memory = λ x. 0 }; handles = [] };
  cw_handles = (4096, of_request) ∷ (4108, that_lasts) ∷ [];
}

two_handles-Held : Held four_blocks two_handles.cw_handles
unfolding alloc
two_handles-Held = (
  refl,
  refl,
  refl,
  (λ e. omega (arith, e)),
  ((λ e. omega (arith, e)), (λ e. omega (arith, e)), tt),
  ((λ e. omega (arith, e)), (λ e. omega (arith, e)), tt),
  (refl, refl, refl, (λ e. omega (arith, e)), tt, tt, tt),
)

free_request_handles-Freed_example :
    ((free_request_handles ram two_handles).0 ≡ ok tt)
    × ((free_request_handles ram two_handles).1.cw_handles ≡ (4108, that_lasts) ∷ [])
    × IsValid (free_request_handles ram two_handles).1.manager.machine.heap
    × ((c : ℕ)
        → Avoids c ((4096, of_request) ∷ [])
        → lookup c (free_request_handles ram two_handles).1.manager.machine.heap.allocations
          ≡ lookup c four_blocks.allocations)
    × ((x : ℕ)
        → covers (free_request_handles ram two_handles).1.manager.machine.heap.free_ranges x
          ≡ hits ((4096, of_request) ∷ []) x + covers four_blocks.free_ranges x)
free_request_handles-Freed_example =
    free_request_handles-Freed ram two_handles four_blocks-IsValid two_handles-Held

callback-Refused_example :
    ((c : Callback) → is_stub c ≡ false → Refused ram session (callback ram decode c session))
    × Refused ram session (done_plugin_request ram decode session)
callback-Refused_example = callback-Refused ram decode session refl

-- plug-in code that calls CWDonePluginRequest with -1 and returns
abbrev calling : Session ram → Session ram
calling s = record s { gprs = λ n. if n == 3 then 0x100 else 0xFFFF_FFFF }

calling-Same : (s : Session ram) → Same ram s (calling s)
calling-Same s = record {
  progress = refl;
  phase = refl;
  fragment = refl;
  ctx_ptr = refl;
  closed = refl;
}

abbrev plugin : Runs ram
plugin tvector arguments s = done_plugin_request ram decode (calling s)

abbrev results_of : Result SessionError ℕ → List ℤ
results_of (ok _) = negsuc 0 ∷ []
results_of (err _) = []

pub plugin-Calls :
    (r : Result SessionError ℕ) (s : Session ram)
    → (done_plugin_request ram decode (calling s)).0 ≡ r
    → Calls ram decode (results_of r) s (done_plugin_request ram decode (calling s)).1
plugin-Calls (ok value) s q = finishes q (computes (calling-Same s) idle)
plugin-Calls (err e) s q = refuses q (computes (calling-Same s) idle)

abbrev plugin_trace : Traced ram decode plugin
plugin_trace = record {
  results = λ tvector arguments s. results_of (plugin tvector arguments s).0;
  traced =
      λ tvector arguments s. plugin-Calls (done_plugin_request ram decode (calling s)).0 s refl;
}

request-Served_example :
    Served ram decode req_initialize
      (plugin 0x2000 (0x100 ∷ []) (begun ram decode req_initialize session))
      (results_of (plugin 0x2000 (0x100 ∷ []) (begun ram decode req_initialize session)).0)
      (request ram plugin req_initialize session)
unfolding done_plugin_request
request-Served_example =
    request-Served ram decode plugin plugin_trace req_initialize
      (record { main_tvector = 0x2000; term_tvector = none }) 0x100 session refl refl refl

returns_result : (request ram plugin req_initialize session).0 ≡ ok (negsuc 0)
unfolding request done_plugin_request enter take_args free_request_handles
returns_result = refl

becomes_initialized : (request ram plugin req_initialize session).1.phase ≡ initialized
unfolding request done_plugin_request enter take_args free_request_handles
becomes_initialized = refl

-- plug-in code that returns without the call
silent : (request ram (λ tvector arguments s. (ok 0, s)) req_initialize session).0 ≡ err not_done
unfolding request
silent = refl
