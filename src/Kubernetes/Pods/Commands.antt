-- ===== src/Kubernetes/Pods/Commands.antt =====
-- sendNotify of pkg/kubernetes/pods_controller.go: the commands that reach the robot.
use rocklet.Base.{ℕ, ◌≡◌, List, [], ◌∷◌, ◌++◌, none, some, Bool, true, false, map, refl, All}
use rocklet.Kubernetes.Pods.{
  Container, Pod, pending, succeeded, failed, found, command_args, command_failed, run_commands,
  act, send_notify,
}

-- The command of a container.
abbrev pub command_of : Container → List ℕ × List ℕ
command_of c = (c.image, command_args c)

run_commands_ok :
    (answer : List ℕ × List ℕ → Bool) (cs : List Container)
    → All (λ c. answer (command_of c) ≡ true) cs
    → run_commands answer cs ≡ (map command_of cs, true)
unfolding run_commands
run_commands_ok answer [] h = refl
run_commands_ok answer (c ∷ cs) h = rw (h.0, run_commands_ok answer cs h.1) refl

run_commands_stop :
    (answer : List ℕ × List ℕ → Bool) (before after : List Container) (c : Container)
    → All (λ d. answer (command_of d) ≡ true) before
    → answer (command_of c) ≡ false
    → run_commands answer (before ++ c ∷ after)
      ≡ (map command_of before ++ command_of c ∷ [], false)
unfolding run_commands
run_commands_stop answer [] after c h refused = rw refused refl
run_commands_stop answer (d ∷ before) after c h refused =
    rw (h.0, run_commands_stop answer before after c h.1 refused) refl

-- A pending pod that is no mirror pod, all of whose commands the robot takes in time: they are
-- sent in the order of the containers, and the pod is reported as succeeded.
pub send_notify-succeeded :
    (answer : List ℕ × List ℕ → Bool) (p : Pod)
    → p.is_mirror ≡ false
    → p.phase ≡ pending
    → All (λ c. answer (command_of c) ≡ true) p.containers
    → send_notify answer true (found p)
      ≡ record { commands = map command_of p.containers; reported = some succeeded; error = none }
unfolding send_notify act
send_notify-succeeded answer p real waits h =
    rw (real, waits, run_commands_ok answer p.containers h) refl

-- If the robot refuses a command of such a pod, the commands of the containers behind it are not
-- sent, the pod is reported as failed, and the error makes the controller try it again.
pub send_notify-failed :
    (answer : List ℕ × List ℕ → Bool) (p : Pod) (before after : List Container) (c : Container)
    → p.is_mirror ≡ false
    → p.phase ≡ pending
    → p.containers ≡ before ++ c ∷ after
    → All (λ d. answer (command_of d) ≡ true) before
    → answer (command_of c) ≡ false
    → send_notify answer true (found p) ≡ record {
      commands = map command_of before ++ command_of c ∷ [];
      reported = some failed;
      error = some command_failed;
    }
unfolding send_notify act
send_notify-failed answer p before after c real waits split h refused =
    rw (real, waits, split, run_commands_stop answer before after c h refused) refl
