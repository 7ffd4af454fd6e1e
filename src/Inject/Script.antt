-- ===== src/Inject/Script.antt =====
-- src/pidprobe/_inject.py: the text of the injected script. `repr` of a text and of a float, and the
-- functions of `textwrap`, are arguments.
use text.Mathlib.TextLemmas.{append_assoc}
use pidprobe.Base.{◌≡◌, sym, ◌∙◌, String, ◌<>◌, true, List, [], ◌∷◌}
use pidprobe.Base.Text
use pidprobe.Channel.Execute.{ChannelKind, unix_socket, tempfile}
use pidprobe.Collectors.Contract.{Texts}
use pidprobe.Collectors.Compose.{strip_start, strip_end}

-- `ChannelSpec`, for a type of floats.
pub record ChannelSpec (F : Type 0) : Type 0 where
  pub kind : ChannelKind
  pub path : String
  pub timeout_seconds : F

-- The lines of `_SCRIPT_TEMPLATE`, up to the imports, the collector and the write back, and after it.
abbrev template_head : List String
template_head =
    "# Generated by pidprobe -- executed inside the target process via"
    ∷ "# sys.remote_exec. Every binding is namespaced with the _pidprobe_ prefix and"
    ∷ "# removed again, so the target's module namespace is left as it was found." ∷ "" ∷ ""
    ∷ "def _pidprobe_main():" ∷ "    import json as _pidprobe_json"
    ∷ "    import sys as _pidprobe_sys" ∷ "    import traceback as _pidprobe_traceback" ∷ "" ∷ []

abbrev template_frames : List String
template_frames =
    "" ∷ "" ∷ "    # Frame of _pidprobe_main itself; its f_back is this script's module"
    ∷ "    # frame, and *that* frame's caller is the target code the injection"
    ∷ "    # interrupted. The pair marks where pidprobe ends and the target begins."
    ∷ "    _pidprobe_root = _pidprobe_sys._getframe()" ∷ "" ∷ "    def _pidprobe_target_frames():"
    ∷ "        \"\"\"Return {thread_id: frame} without pidprobe's own frames." ∷ ""
    ∷ "        sys._current_frames() reports the frame that is executing *right"
    ∷ "        now*, which on this thread is the injected script itself. Dropping"
    ∷ "        every frame up to and including this script's module frame yields"
    ∷ "        the frame the injection interrupted, i.e. real target code." ∷ "        \"\"\""
    ∷ "        _pidprobe_own = set()" ∷ "        _pidprobe_frame = _pidprobe_sys._getframe()"
    ∷ "        while _pidprobe_frame is not None:"
    ∷ "            _pidprobe_own.add(id(_pidprobe_frame))"
    ∷ "            if _pidprobe_frame is _pidprobe_root:"
    ∷ "                if _pidprobe_frame.f_back is not None:"
    ∷ "                    _pidprobe_own.add(id(_pidprobe_frame.f_back))" ∷ "                break"
    ∷ "            _pidprobe_frame = _pidprobe_frame.f_back" ∷ "        _pidprobe_frames = {}"
    ∷ "        for _pidprobe_tid, _pidprobe_top in _pidprobe_sys._current_frames().items():"
    ∷ "            while _pidprobe_top is not None and id(_pidprobe_top) in _pidprobe_own:"
    ∷ "                _pidprobe_top = _pidprobe_top.f_back"
    ∷ "            if _pidprobe_top is not None:"
    ∷ "                _pidprobe_frames[_pidprobe_tid] = _pidprobe_top"
    ∷ "        return _pidprobe_frames" ∷ "" ∷ "    def _pidprobe_error_envelope():"
    ∷ "        _pidprobe_exc = _pidprobe_sys.exc_info()[1]" ∷ "        return {"
    ∷ "            \"status\": \"error\"," ∷ "            \"error\": {"
    ∷ "                \"type\": type(_pidprobe_exc).__name__,"
    ∷ "                \"message\": str(_pidprobe_exc),"
    ∷ "                \"traceback\": _pidprobe_traceback.format_exc()," ∷ "            },"
    ∷ "            \"payload\": None," ∷ "        }" ∷ "" ∷ "    def _pidprobe_collect():"
    ∷ "        payload = None" ∷ "" ∷ []

abbrev template_main : List String
template_main =
    "" ∷ "        return payload" ∷ ""
    ∷ "    # Any collector failure -- including a payload that will not serialize --"
    ∷ "    # has to come back as an error envelope; a silent target would leave the"
    ∷ "    # prober waiting for its hard timeout with nothing to report." ∷ "    try:"
    ∷ "        _pidprobe_data = _pidprobe_json.dumps("
    ∷ "            {\"status\": \"ok\", \"error\": None, \"payload\": _pidprobe_collect()}"
    ∷ "        ).encode(\"utf-8\")" ∷ "    except BaseException:"
    ∷ "        _pidprobe_data = _pidprobe_json.dumps(_pidprobe_error_envelope()).encode(\"utf-8\")"
    ∷ "" ∷ "" ∷ []

abbrev template_end : List String
template_end =
    "" ∷ "" ∷ "" ∷ "# The target process must survive whatever happens above -- a failed write"
    ∷ "# back is pidprobe's problem, never the target's." ∷ "try:" ∷ "    _pidprobe_main()"
    ∷ "except BaseException:" ∷ "    pass" ∷ "try:" ∷ "    del _pidprobe_main"
    ∷ "except BaseException:" ∷ "    pass" ∷ "" ∷ []

contains-behind : (a b c t : String) → Text.contains t (a <> (b <> (c <> t))) ≡ true
contains-behind a b c t =
    let whole_text : a <> (b <> (c <> t)) ≡ ((a <> b) <> c) <> t =
      sym (append_assoc (a <> b) c t ∙ append_assoc a b (c <> t)) in
    rw whole_text (Text.contains-append_right t ((a <> b) <> c))

module _ {F : Type 0} (t : Texts) (repr_float : F → String) where
  extra_import : ChannelKind → String
  extra_import unix_socket = "    import socket as _pidprobe_socket"
  extra_import tempfile = "    import os as _pidprobe_os"

  write_back : ChannelKind → (path : String) → (timeout : F) → String
  write_back unix_socket path timeout =
      "_pidprobe_sock = _pidprobe_socket.socket(\n    _pidprobe_socket.AF_UNIX, _pidprobe_socket.SOCK_STREAM\n)\ntry:\n    _pidprobe_sock.settimeout("
      <> (repr_float timeout
          <> (")\n    _pidprobe_sock.connect("
              <> (t.repr path
                  <> (")\n    _pidprobe_sock.sendall(_pidprobe_data)\nfinally:\n    _pidprobe_sock.close()\n"))))
  write_back tempfile path timeout =
      "_pidprobe_tmp = "
      <> (t.repr path
          <> (" + \".tmp\"\n_pidprobe_fd = _pidprobe_os.open(\n    _pidprobe_tmp,\n    _pidprobe_os.O_WRONLY | _pidprobe_os.O_CREAT | _pidprobe_os.O_TRUNC,\n    0o600,\n)\ntry:\n    _pidprobe_os.write(_pidprobe_fd, _pidprobe_data)\nfinally:\n    _pidprobe_os.close(_pidprobe_fd)\n_pidprobe_os.replace(_pidprobe_tmp, "
              <> (t.repr path <> (")\n"))))

  -- `_write_back_source`
  unfoldable pub write_back_source : ChannelSpec F → String × String
  unfolding extra_import write_back
  write_back_source spec = (
    extra_import spec.kind,
    t.indent (write_back spec.kind spec.path spec.timeout_seconds) "    ",
  )

  -- The collector in the script.
  unfoldable pub indented : String → String
  unfolding strip_start strip_end
  indented source = t.indent (strip_end 10 (strip_start 10 (t.dedent source))) "        "

  unfoldable pub build_injection_script : (collector_source : String) → ChannelSpec F → String
  unfolding write_back_source indented
  build_injection_script collector_source spec =
      let (extra_imports, written) = write_back_source spec in
      Text.join "\n" template_head
      <> (extra_imports
          <> (Text.join "\n" template_frames
              <> (indented collector_source
                  <> (Text.join "\n" template_main <> (written <> Text.join "\n" template_end)))))

  -- The script holds the collector, indented as a whole, and behind it the write back to the channel.
  pub build_injection_script-contains :
      (collector_source : String) (spec : ChannelSpec F)
      → Text.contains
          (indented collector_source
            <> (Text.join "\n" template_main
                <> ((write_back_source spec).1 <> Text.join "\n" template_end)))
          (build_injection_script collector_source spec)
        ≡ true
  unfolding build_injection_script
  build_injection_script-contains collector_source spec =
      contains-behind (Text.join "\n" template_head) _ _ _
