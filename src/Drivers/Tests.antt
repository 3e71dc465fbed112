-- ===== src/Drivers/Tests.antt =====
-- The drivers on a blank screen, an empty ring and a timer of 100 Hz.
use yotos.Base.{◌≡◌, refl, ◌≢◌, [], arith, length}
use yotos.Drivers.Vga.{Terminal, terminal_putchar}
use yotos.Drivers.Vga.Cursor.{InScreen, Outside, terminal_putchar-InScreen}
use yotos.Drivers.Keyboard.{Keyboard, key_char, push_key}
use yotos.Drivers.Keyboard.Ring.{pending, slots, Fits, push_key-overflow}
use yotos.Drivers.Timer.{Timer}

abbrev screen : Terminal
screen = record {
  terminal_row = 0;
  terminal_column = 0;
  terminal_color = 7;
  terminal_buffer = λ _. 0x0720;
  ports = [];
}

screen-InScreen : InScreen screen
unfolding InScreen
screen-InScreen = (omega arith, omega arith)

terminal_putchar-InScreen_example :
    InScreen (terminal_putchar 65 screen) × Outside screen (terminal_putchar 65 screen)
terminal_putchar-InScreen_example =
    terminal_putchar-InScreen 65 screen screen-InScreen (λ e. absurd (omega (arith, e)))

abbrev idle : Keyboard
idle = record { key_buffer = λ _. 0; buf_head = 3; buf_tail = 3; caps = 0; shift = 0; ctrl = 0 }

idle-Fits : Fits idle
unfolding Fits
idle-Fits = (omega arith, omega arith)

idle_empty : length (pending idle) ≡ 0
unfolding pending slots
idle_empty = refl

has_char : key_char 0x1E idle ≢ 0
unfolding key_char
has_char = λ e. absurd (omega (arith, e))

abbrev full : Keyboard
full = record { key_buffer = λ _. 65; buf_head = 4; buf_tail = 3; caps = 0; shift = 0; ctrl = 0 }

full-Fits : Fits full
unfolding Fits
full-Fits = (omega arith, omega arith)

full_waiting : length (pending full) ≡ 255
unfolding pending slots
full_waiting = refl

push_key-overflow_example : pending (push_key 66 full) ≡ []
push_key-overflow_example = push_key-overflow 66 full full-Fits full_waiting

abbrev timer : Timer
timer = record { timer_ticks = 5; timer_frequency = 100; ports = [] }
