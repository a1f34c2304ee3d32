-- ===== src/Shell/Tests.antt =====
-- Commands at the sample host: their actions, and the theorems at them. `words` stands for
-- `shlex.split` at the few commands used.
use just_another_coding_agen.Base.{
  ◌≡◌, refl, String, false, Option, none, some, List, [], ◌∷◌, ◌==◌, is_empty, All, ok,
  if◌then◌else◌, ltb,
}
use just_another_coding_agen.Sandbox.Grants.{AdditionalSandboxPermissions}
use just_another_coding_agen.Sandbox.Approval.{validate_option}
use just_another_coding_agen.Sandbox.Capabilities.{build_default_permission_state}
use just_another_coding_agen.Permissions.Engine.{evaluate_permission_actions}
use just_another_coding_agen.Sandbox.Tests.{read_x}
use just_another_coding_agen.Permissions.Offers.{build_permission_approval_options}
use just_another_coding_agen.Permissions.Plan.{
  plan_shell_execution, derive_sandbox_execution_plan, approval_permissions_of, approval_network,
  approval_roots,
}
use just_another_coding_agen.Permissions.Memory.{
  remember_command_prefix, allows_read_path, allows_write_path,
}
use just_another_coding_agen.Permissions.Tests.{host, memory}
use just_another_coding_agen.Shell.Network.{
  tokens_network_command_prefix, is_git, is_git_subcommand, is_network_command,
}
use just_another_coding_agen.Shell.Unwrap.{unwrap_shell_wrappers, is_wrapper}
use just_another_coding_agen.Shell.Tokens.{token_starts_with}
use just_another_coding_agen.Shell.Targets.{read_paths, write_paths}
use just_another_coding_agen.Shell.Extract.{
  actions_of_tokens, extract_shell_permission_actions, shell_network_command_prefix,
}
use just_another_coding_agen.Shell.Wrapped.{extract-behind_sudo}
use just_another_coding_agen.Shell.Covered.{command_options-valid}
use just_another_coding_agen.Shell.Remembered.{remembered-without_network}

abbrev words : String → Option (List String)
words t =
    if t == "sudo curl http://a > /x"
    then some ("sudo" ∷ "curl" ∷ "http://a" ∷ ">" ∷ "/x" ∷ [])
    else if t == "cat /x"
    then some ("cat" ∷ "/x" ∷ [])
    else none

fetch_prefix : tokens_network_command_prefix ("git" ∷ "fetch" ∷ "o" ∷ []) ≡ "git" ∷ "fetch" ∷ []
unfolding tokens_network_command_prefix is_git is_git_subcommand is_network_command
fetch_prefix = refl

copy_writes : write_paths ("cp" ∷ "./a" ∷ "b/c" ∷ ">" ∷ "/tmp/log" ∷ []) ≡ "b/c" ∷ "/tmp/log" ∷ []
unfolding write_paths
copy_writes = refl

dd_writes : write_paths ("dd" ∷ "if=/a" ∷ "of=/b" ∷ []) ≡ "/b" ∷ []
unfolding write_paths
dd_writes = refl

cat_reads : read_paths ("cat" ∷ "-n" ∷ "--x=~/a" ∷ "a.txt" ∷ ">" ∷ "/b" ∷ []) ≡ "~/a" ∷ []
unfolding read_paths
cat_reads = refl

env_unwrapped :
    unwrap_shell_wrappers words 5 ("env" ∷ "A=1" ∷ "timeout" ∷ "-k" ∷ "5" ∷ "curl" ∷ "x" ∷ [])
    ≡ some ("curl" ∷ "x" ∷ [])
unfolding unwrap_shell_wrappers
env_unwrapped = refl

command_unwrapped :
    unwrap_shell_wrappers words 5 ("bash" ∷ "-lc" ∷ "cat /x" ∷ []) ≡ some ("cat" ∷ "/x" ∷ [])
unfolding unwrap_shell_wrappers
command_unwrapped = refl

curl-IsNoWrapper : is_wrapper "curl" ≡ false
unfolding is_wrapper
curl-IsNoWrapper = refl

curl-IsNoOption : token_starts_with "-" "curl" ≡ false
unfolding token_starts_with
curl-IsNoOption = refl

extract-behind_sudo_example :
    extract_shell_permission_actions host build_default_permission_state
      ("w" ∷ [])
      memory
      words
      "posix"
      "sudo curl http://a > /x"
    ≡ (if ltb 1 5
        then actions_of_tokens host build_default_permission_state
            ("w" ∷ [])
            memory
            ("curl" ∷ "http://a" ∷ ">" ∷ "/x" ∷ [])
        else [])
extract-behind_sudo_example =
    extract-behind_sudo words "curl" ("http://a" ∷ ">" ∷ "/x" ∷ []) curl-IsNoWrapper curl-IsNoOption
      host build_default_permission_state ("w" ∷ []) memory 1 "sudo curl http://a > /x" refl

cat_asks :
    (plan_shell_execution build_default_permission_state (
      extract_shell_permission_actions host build_default_permission_state
        ("w" ∷ [])
        memory
        words
        "posix"
        "cat /x")).requested_permissions
    ≡ some read_x
unfolding plan_shell_execution derive_sandbox_execution_plan approval_permissions_of
    approval_network approval_roots evaluate_permission_actions extract_shell_permission_actions
    is_network_command is_git build_default_permission_state allows_read_path
cat_asks = refl

command_options-valid_example :
    All
      (λ o. validate_option o ≡ ok tt)
      (build_permission_approval_options read_x "Allow once" none [])
command_options-valid_example =
    command_options-valid host build_default_permission_state ("w" ∷ []) memory words "posix"
      "cat /x" read_x "Allow once" none [] cat_asks

abbrev write_x : AdditionalSandboxPermissions
write_x = record { network_access = none; extra_read_roots = []; extra_write_roots = "/x" ∷ [] }

curl_has_prefix :
    is_empty (shell_network_command_prefix words "posix" "sudo curl http://a > /x") ≡ false
unfolding shell_network_command_prefix is_network_command
curl_has_prefix = refl

curl_asks :
    (plan_shell_execution build_default_permission_state (
      extract_shell_permission_actions host build_default_permission_state
        ("w" ∷ [])
        (remember_command_prefix
          (shell_network_command_prefix words "posix" "sudo curl http://a > /x")
          memory)
        words
        "posix"
        "sudo curl http://a > /x")).requested_permissions
    ≡ some write_x
unfolding plan_shell_execution derive_sandbox_execution_plan approval_permissions_of
    approval_network approval_roots evaluate_permission_actions extract_shell_permission_actions
    remember_command_prefix shell_network_command_prefix is_network_command
    build_default_permission_state allows_write_path
curl_asks = refl

remembered-without_network_example : write_x.network_access ≡ none
remembered-without_network_example =
    remembered-without_network host build_default_permission_state ("w" ∷ []) memory words "posix"
      "sudo curl http://a > /x" write_x curl_has_prefix curl_asks
