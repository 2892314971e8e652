-- ===== src/Calls.antt =====
-- The calls of the application's route callbacks, as the operations see them: what
-- fskit_route_call of libfskit/route.c comes to for one route type and path, and the
-- fskit_run_user_* functions, which turn that into a return code.
use fskit.Base.{Bool, true, false, ◌&&◌, not, if◌then◌else◌}
use fskit.Errno.{ok_rc}
use fskit.Base.Int.{pos, ℤ, is_nonpos}
use fskit.Base.Bytes.{Str}
use fskit.Store.{Sglib, Inode, Cmd, Ptr, fault, exits, pure, load, ◌>>=◌}

-- FSKIT_ROUTE_MATCH_*
pub data RouteType : Type 0 where
  create mkdir mknod open_file readdir read write trunc close detach stat sync : RouteType
  rename link destroy getxattr listxattr setxattr removexattr setmetadata : RouteType

-- -EPERM because no route matches, the return code of the callback of the matching route, or the
-- read of a NULL route.
pub data Call : Type 0 where
  no_route : Call
  ran : ℤ → Call
  null_route : Call

abbrev pub Routes : Type 0
Routes = RouteType → Str → Call

abbrev pub is_teardown : RouteType → Bool
is_teardown detach = true
is_teardown destroy = true
is_teardown _ = false

module _ (G : Sglib) where
  -- fskit_route_enter exits if an inode that nothing references is given to a callback, other than
  -- one of detach and destroy.
  abbrev pub unreferenced : RouteType → Inode G → Bool
  unreferenced t e = not (is_teardown t) && is_nonpos e.open_count && is_nonpos e.link_count

  -- A route that matches is entered before its callback runs.
  abbrev pub outcome : RouteType → Inode G → Call → ℤ → Cmd G ℤ
  outcome t e no_route d = pure d
  outcome t e (ran rc) d = if unreferenced t e then (λ _. exits) else pure rc
  outcome t e null_route d = λ _. fault

  -- fskit_run_user_*: the callback's code, or `d` if there is no route. A callback does not change
  -- the inode.
  unfoldable pub run_user : ℤ → Routes → RouteType → Str → Ptr → Cmd G ℤ
  run_user d routes t path fent = do e ← load fent; outcome t e (routes t path) d

  -- The functions of the operations, and what each returns where no route matches.
  abbrev pub run_user_close : Routes → Str → Ptr → Cmd G ℤ
  run_user_close routes path fent = run_user ok_rc routes RouteType.close path fent

  abbrev pub run_user_create : Routes → Str → Ptr → Cmd G ℤ
  run_user_create routes path fent = run_user ok_rc routes RouteType.create path fent

  abbrev pub run_user_mkdir : Routes → Str → Ptr → Cmd G ℤ
  run_user_mkdir routes path fent = run_user ok_rc routes RouteType.mkdir path fent

  abbrev pub run_user_mknod : Routes → Str → Ptr → Cmd G ℤ
  run_user_mknod routes path fent = run_user ok_rc routes RouteType.mknod path fent

  abbrev pub run_user_link : Routes → Str → Ptr → Cmd G ℤ
  run_user_link routes path fent = run_user ok_rc routes RouteType.link path fent

  abbrev pub run_user_rename : Routes → Str → Ptr → Cmd G ℤ
  run_user_rename routes path fent = run_user ok_rc routes RouteType.rename path fent

  abbrev pub run_user_readdir : Routes → Str → Ptr → Cmd G ℤ
  run_user_readdir routes path fent = run_user ok_rc routes RouteType.readdir path fent

  abbrev pub run_user_setmetadata : Routes → Str → Ptr → Cmd G ℤ
  run_user_setmetadata routes path fent = run_user ok_rc routes RouteType.setmetadata path fent

  abbrev pub run_user_read : Routes → Str → Ptr → Cmd G ℤ
  run_user_read routes path fent = run_user ok_rc routes RouteType.read path fent

  abbrev pub run_user_listxattr : Routes → Str → Ptr → Cmd G ℤ
  run_user_listxattr routes path fent = run_user ok_rc routes RouteType.listxattr path fent

  abbrev pub run_user_getxattr : Routes → Str → Ptr → Cmd G ℤ
  run_user_getxattr routes path fent = run_user ok_rc routes RouteType.getxattr path fent

  abbrev pub run_user_setxattr : Routes → Str → Ptr → Cmd G ℤ
  run_user_setxattr routes path fent = run_user (pos 1) routes RouteType.setxattr path fent

  abbrev pub run_user_removexattr : Routes → Str → Ptr → Cmd G ℤ
  run_user_removexattr routes path fent = run_user ok_rc routes RouteType.removexattr path fent
